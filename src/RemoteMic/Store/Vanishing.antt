-- ===== src/RemoteMic/Store/Vanishing.antt =====
-- src/remote-mic/store.ts: relayed audio is gone a minute after it was written, whatever is read
-- meanwhile.
use asad.Base.{
  ℕ, ◌+◌, ◌≤◌, String, ◌≡◌, refl, subst, inl, inr, false, Option, some, List, [], ◌∷◌, arith, All,
  Option-cases, Bool-cases, eq_iff, leb, not, take, zero, suc, str_eq,
}
use asad.Base.Dict.{get, delete, get-put, get-delete, get-keep}
use asad.RemoteMic.Protocol.{relay_ttl_ms}
use asad.RemoteMic.Session.{Pairing, is_expired}
use asad.RemoteMic.Routes.{Mutated}
use asad.RemoteMic.Store.{
  RelayId, PostedFrame, Relay, MemoryStore, sweep, without_expired, create, find, update, remove,
  pass, relay_append, relay_read, relay_clear, appended, current_relay, frames_of, newer,
}
use asad.RemoteMic.Store.Access.{IsTidy, relay_append-IsTidy, without_expired-All}
use asad.RemoteMic.Store.Lifetime.{
  Call, created, looked_up, updated, removed, cleared, wrote, fetched, after_call, after_calls,
  after_call-IsTidy,
}

-- A relay that is found after the sweep was there before it.
get-without_expired :
    (now : ℕ) (rs : List (String × Pairing)) (relays : List (String × Relay)) (id : String)
    (relay : Relay)
    → get (without_expired now rs relays) id ≡ some relay
    → get relays id ≡ some relay
unfolding without_expired
get-without_expired now [] relays id relay e = e
get-without_expired now ((j, r) ∷ rs) relays id relay e = elim (Bool-cases (is_expired r now)) [
  | inl x ↦
      let once =
        get-without_expired now rs (delete relays j) id relay (rw (x, without_expired) at e) in
      ground (arith, get-delete relays j id)
  | inr x ↦ get-without_expired now rs relays id relay (rw (x, without_expired) at e)
]

sweep-alive :
    (s : MemoryStore) (now : ℕ) (id : String) (relay : Relay)
    → IsTidy s
    → get (sweep s now).relays id ≡ some relay
    → (get s.relays id ≡ some relay) × (leb relay.expires_at now ≡ false)
unfolding sweep
sweep-alive s now id relay t e =
    let d = (without_expired-All now s.records s.relays t.ordered t.each_relay).1 in
    elim (Option-cases (get (without_expired now s.records s.relays) id)) [
      | inl x ↦ absurd (ground (arith, get-keep (λ e. not (leb e.1.expires_at now)) _ id d))
      | inr (r, x) ↦ ground (
        arith,
        get-keep (λ e. not (leb e.1.expires_at now)) (without_expired now s.records s.relays) id d,
        get-without_expired now s.records s.relays id r x,
      )
    ]

frames-late :
    (s : MemoryStore) (later : ℕ) (id : String)
    → IsTidy s
    → ((relay : Relay) → get s.relays id ≡ some relay → relay.expires_at ≤ later)
    → frames_of (get (sweep s later).relays id) later ≡ []
frames-late s later id t late = elim (Option-cases (get (sweep s later).relays id)) [
  | inl e ↦ rw e
  | inr (relay, e) ↦
      let (before, alive) = sweep-alive s later id relay t e in
      absurd (ground (arith, late relay before))
]

-- What an accepted write leaves under the id.
relay_append-expires :
    (digest : String → String) (s : MemoryStore) (id token : String) (fs : List PostedFrame)
    (now : ℕ) (relay : Relay)
    → (relay_append digest s id token fs now).0 ≡ pass
    → get (relay_append digest s id token fs now).1.relays id ≡ some relay
    → relay.expires_at ≡ now + relay_ttl_ms
unfolding relay_append appended
relay_append-expires digest s id token fs now relay e found = ground (
  arith,
  get-put (sweep s now).relays id id
      (appended (current_relay (get (sweep s now).relays id) now) now fs),
  (eq_iff id id).1 refl,
)

read-none : (after : Option RelayId) (count : ℕ) → take count (newer after []) ≡ []
read-none after zero = refl
read-none after (suc n) = refl

update-relays :
    (s : MemoryStore) (j : String) (mutate : Pairing → Mutated (Unit {0})) (now : ℕ)
    → (update s j mutate now).1.relays ≡ (sweep s now).relays
unfolding update
update-relays s j mutate now = elim (Option-cases (get (sweep s now).records j)) [
  | inl x ↦ rw (x, update) refl
  | inr (r, x) ↦ rw (x, update) (ground arith)
]

-- No relay under the id outlives the time.
abbrev Fades : ℕ → String → MemoryStore → Type 0
Fades deadline id s = (relay : Relay) → get s.relays id ≡ some relay → relay.expires_at ≤ deadline

-- A call that writes no audio under the id.
abbrev pub WritesElsewhere : String → Call → Type 0
WritesElsewhere id (wrote j token fs now) = str_eq j id ≡ false
WritesElsewhere id _ = Unit

module _ (deadline : ℕ) (id : String) where
  sweep-Fades :
      (s : MemoryStore) (now : ℕ) → IsTidy s → Fades deadline id s → Fades deadline id (sweep s now)
  sweep-Fades s now t f relay e = f relay (sweep-alive s now id relay t e).0

  delete-Fades :
      (s : MemoryStore) (j : String) (relay : Relay)
      → Fades deadline id s
      → get (delete s.relays j) id ≡ some relay
      → relay.expires_at ≤ deadline
  delete-Fades s j relay f e = ground (arith, get-delete s.relays j id, f relay)

  module _ (digest : String → String) where
    after_call-Fades :
        (s : MemoryStore) (c : Call)
        → IsTidy s
        → WritesElsewhere id c
        → Fades deadline id s
        → Fades deadline id (after_call digest s c)
    unfolding after_call create find update remove relay_clear relay_append relay_read
    after_call-Fades s (created r now) t n f relay e = ground (arith, sweep-Fades s now t f relay)
    after_call-Fades s (looked_up j now) t n f relay e = sweep-Fades s now t f relay e
    after_call-Fades s (updated j mutate now) t n f relay e =
        sweep-Fades s now t f relay
          (subst (λ m. get m id ≡ some relay) (update-relays s j mutate now) e)
    after_call-Fades s (removed j) t n f relay e = delete-Fades s j relay f e
    after_call-Fades s (cleared j) t n f relay e = delete-Fades s j relay f e
    after_call-Fades s (wrote j token fs now) t n f relay e = ground (
      arith,
      sweep-Fades s now t f relay,
      get-put (sweep s now).relays j id
          (appended (current_relay (get (sweep s now).relays j) now) now fs),
    )
    after_call-Fades s (fetched j token after count now) t n f relay e =
        ground (arith, sweep-Fades s now t f relay)

    after_calls-Fades :
        (s : MemoryStore) (cs : List Call)
        → IsTidy s
        → All (WritesElsewhere id) cs
        → Fades deadline id s
        → Fades deadline id (after_calls digest s cs) × IsTidy (after_calls digest s cs)
    unfolding after_calls
    after_calls-Fades s [] t n f = (f, t)
    after_calls-Fades s (c ∷ cs) t n f =
        after_calls-Fades (after_call digest s c) cs (after_call-IsTidy digest s c t) n.1
          (after_call-Fades s c t n.0 f)

-- Relayed audio is gone a minute after the last write: whatever calls follow an accepted write, reads
-- among them, at any times, if none of them writes under its id, a read that comes that late delivers
-- nothing, whoever asks and from whatever cursor.
pub relay_vanishes :
    (digest : String → String) (s : MemoryStore) (id token asker : String) (fs : List PostedFrame)
    (cs : List Call) (after : Option RelayId) (count now later : ℕ)
    → IsTidy s
    → (relay_append digest s id token fs now).0 ≡ pass
    → All (WritesElsewhere id) cs
    → now + relay_ttl_ms ≤ later
    → (relay_read digest
        (after_calls digest (relay_append digest s id token fs now).1 cs)
        id
        asker
        after
        count
        later).1
      ≡ []
unfolding relay_read
relay_vanishes digest s id token asker fs cs after count now later t e elsewhere late =
    let written = (relay_append digest s id token fs now).1 in
    let s' = after_calls digest written cs in
    let (fades, tidy) =
      after_calls-Fades (now + relay_ttl_ms) id digest written cs
        (relay_append-IsTidy digest s id token fs now t) elsewhere
        (λ relay found.
          rw (relay_append-expires digest s id token fs now relay e found) (omega arith)) in
    let empty = frames-late s' later id tidy (λ relay found. omega (arith, fades relay found)) in
    ground (arith, empty, read-none after count)
