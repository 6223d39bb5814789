-- ===== src/RemoteMic/Store/Access.antt =====
-- src/remote-mic/store.ts: who can write and read the relay, what the store holds, and for how long.
use asad.Base.{
  ℕ, String, ◌≡◌, ◌↔◌, Bool-cases, refl, ◌⊎◌, inl, inr, true, Option, none, some, List, [], ◌∷◌,
  arith, All, All-keep, Option-cases,
}
use asad.Base.Dict.{
  get, put, delete, get-All, Distinct, keep-Distinct, delete-Distinct, put-Distinct, All-put,
  All-delete,
}
use asad.RemoteMic.Protocol.{Role, receiver, sender, is_approved}
use asad.RemoteMic.Session.{Pairing, role_for_token, is_expired}
use asad.RemoteMic.Store.{
  RelayId, PostedFrame, Relay, MemoryStore, sweep, without_expired, pass, relay_gate, relay_append,
  relay_read, current_relay, is_role,
}
use asad.RemoteMic.Store.Frames.{IsOrdered, appended-IsOrdered, new_relay-IsOrdered}

-- The pairing lets this token act in this role over the relay.
pub record Admits (digest : String → String) (s : MemoryStore) (id : String) (role : Role)
    (token : String) : Type 0 where
  pub pairing : Pairing
  pub stored : get s.records id ≡ some pairing
  pub holder : role_for_token digest pairing (some token) ≡ some role
  pub is_open : is_approved pairing.state ≡ true
  pub relaying : pairing.relay ≡ true

is_role-eq : (role : Role) (o : Option Role) → is_role role o ≡ true → o ≡ some role
is_role-eq receiver (some receiver) e = refl
is_role-eq receiver (some sender) e = cc
is_role-eq receiver none e = cc
is_role-eq sender (some sender) e = refl
is_role-eq sender (some receiver) e = cc
is_role-eq sender none e = cc

relay_gate-pass :
    (digest : String → String) (s : MemoryStore) (id : String) (role : Role) (token : String)
    → relay_gate digest s id role token ≡ pass
    → Admits digest s id role token
unfolding relay_gate
relay_gate-pass digest s id role token e = elim (Option-cases (get s.records id)) [
  | inl missing ↦ absurd (ground (arith, missing))
  | inr (r, found) ↦ record {
    pairing = r;
    stored = found;
    holder = is_role-eq role (role_for_token digest r (some token)) (ground (arith, found));
    is_open = ground (arith, found);
    relaying = ground (arith, found);
  }
]

relay_gate-Admits :
    (digest : String → String) (s : MemoryStore) (id : String) (role : Role) (token : String)
    → Admits digest s id role token
    → relay_gate digest s id role token ≡ pass
unfolding relay_gate
relay_gate-Admits digest s id receiver token a =
    rw (a.stored, relay_gate) (ground (arith, a.holder, a.is_open, a.relaying))
relay_gate-Admits digest s id sender token a =
    rw (a.stored, relay_gate) (ground (arith, a.holder, a.is_open, a.relaying))

-- A write is accepted exactly with the token of the phone, and a read exactly with the token of
-- the computer, of a pairing that is stored, approved and switched to the relay. A refused write
-- changes nothing but what the sweep does, and a refused read delivers nothing.
pub relay-Admits :
    (digest : String → String) (s : MemoryStore) (id token : String) (fs : List PostedFrame)
    (after : Option RelayId) (count now : ℕ)
    → let wrote = relay_append digest s id token fs now in
      let got = relay_read digest s id token after count now in
      ((wrote.0 ≡ pass) ↔ Admits digest (sweep s now) id sender token)
      × ((wrote.0 ≡ pass) ⊎ (wrote.1 ≡ sweep s now))
      × ((got.0 ≡ pass) ↔ Admits digest (sweep s now) id receiver token)
      × ((got.0 ≡ pass) ⊎ (got.1 ≡ []))
unfolding relay_append relay_read
relay-Admits digest s id token fs after count now =
    let writer = relay_gate-Admits digest (sweep s now) id sender token in
    let reader = relay_gate-Admits digest (sweep s now) id receiver token in
    (
      (
        λ e. relay_gate-pass digest (sweep s now) id sender token (ground arith),
        λ a. ground (arith, writer a),
      ),
      ground arith,
      (
        λ e. relay_gate-pass digest (sweep s now) id receiver token (ground arith),
        λ a. ground (arith, reader a),
      ),
      ground arith,
    )

-- Every relay in order and bounded, and every id once.
pub record IsTidy (s : MemoryStore) : Type 0 where
  pub ordered : All (λ e. IsOrdered e.1) s.relays
  pub each_record : Distinct s.records
  pub each_relay : Distinct s.relays

module _ (now : ℕ) where
  pub without_expired-All :
      (rs : List (String × Pairing)) (relays : List (String × Relay))
      → All (λ e. IsOrdered e.1) relays
      → Distinct relays
      → All (λ e. IsOrdered e.1) (without_expired now rs relays)
        × Distinct (without_expired now rs relays)
  unfolding without_expired
  without_expired-All [] relays a d = (a, d)
  without_expired-All ((id, r) ∷ rs) relays a d = elim (Bool-cases (is_expired r now)) [
    | inl e ↦ rw e (
        without_expired-All rs (delete relays id) (All-delete IsOrdered relays id a)
          (delete-Distinct relays id d))
    | inr e ↦ rw e (without_expired-All rs relays a d)
  ]

  pub sweep-IsTidy : (s : MemoryStore) → IsTidy s → IsTidy (sweep s now)
  unfolding sweep
  sweep-IsTidy s t =
      let (a, d) = without_expired-All s.records s.relays t.ordered t.each_relay in
      record {
        ordered = All-keep _ _ (without_expired now s.records s.relays) a;
        each_record = keep-Distinct _ s.records t.each_record;
        each_relay = keep-Distinct _ (without_expired now s.records s.relays) d;
      }

current-IsOrdered :
    (o : Option Relay) (now : ℕ)
    → ((relay : Relay) → o ≡ some relay → IsOrdered relay)
    → IsOrdered (current_relay o now)
current-IsOrdered none now h = new_relay-IsOrdered
current-IsOrdered (some relay) now h = ground (arith, h relay refl, new_relay-IsOrdered)

with_relay-IsTidy :
    (s : MemoryStore) (id : String) (relay : Relay)
    → IsTidy s
    → IsOrdered relay
    → IsTidy (record s { relays = put s.relays id relay })
with_relay-IsTidy s id relay t o = record {
  ordered = All-put IsOrdered s.relays id relay t.ordered o;
  each_record = t.each_record;
  each_relay = put-Distinct s.relays id relay t.each_relay;
}

pub with_record-IsTidy :
    (s : MemoryStore) (id : String) (r : Pairing)
    → IsTidy s
    → IsTidy (record s { records = put s.records id r })
with_record-IsTidy s id r t = record {
  ordered = t.ordered;
  each_record = put-Distinct s.records id r t.each_record;
  each_relay = t.each_relay;
}

pub relay_append-IsTidy :
    (digest : String → String) (s : MemoryStore) (id token : String) (fs : List PostedFrame)
    (now : ℕ)
    → IsTidy s
    → IsTidy (relay_append digest s id token fs now).1
unfolding relay_append
relay_append-IsTidy digest s id token fs now t =
    let swept = sweep-IsTidy now s t in
    let old = get (sweep s now).relays id in
    let now_ordered = appended-IsOrdered (current_relay old now) now fs (
      current-IsOrdered old now
        (λ relay e. get-All IsOrdered (sweep s now).relays id relay swept.ordered e)) in
    ground (arith, with_relay-IsTidy (sweep s now) id _ swept now_ordered)
