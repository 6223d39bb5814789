-- ===== src/RemoteMic/Store.antt =====
-- src/remote-mic/store.ts: `MemoryRemoteMicStore`, the pairings and the relayed audio of one
-- process. An operation takes the time and returns its result with the new store. A frame id
-- `ms-seq` is the pair of its numbers, which is all that `compareRelayIds` reads of it, and the
-- cursor "" is `none`. A copy made by `clone` is the value itself.
pub mod Frames
pub mod Access
pub mod Lifetime
pub mod Vanishing
pub mod Arrivals
pub mod Polling
mod Tests
use asad.Base.{
  ℕ, ◌+◌, ◌-◌, max, String, Bool, true, false, not, ◌&&◌, ◌||◌, Option, none, some, List, [], ◌∷◌,
  ◌++◌, ltb, leb, ◌==◌, if◌then◌else◌, keep, length, take, drop, is_some,
}
use asad.Base.Dict.{get, put, delete}
use asad.RemoteMic.Protocol.{
  Role, receiver, sender, is_receiver, is_sender, is_approved, relay_max_stored_frames,
  relay_ttl_ms,
}
use asad.RemoteMic.Session.{Pairing, is_expired, role_for_token}
use asad.RemoteMic.Routes.{Mutated}

pub record RelayId : Type 0 where
  pub ms : ℕ
  pub seq : ℕ

pub record RelayFrame : Type 0 where
  pub id : RelayId
  pub n : ℕ
  pub a : String

-- A frame as it is posted.
pub record PostedFrame : Type 0 where
  pub n : ℕ
  pub a : String

pub record Relay : Type 0 where
  pub frames : List RelayFrame
  pub expires_at : ℕ
  pub last : ℕ
  pub seq : ℕ

pub record MemoryStore : Type 0 where
  pub records : List (String × Pairing)
  pub relays : List (String × Relay)

-- `compareRelayIds(a, b) > 0`
abbrev pub is_after : RelayId → RelayId → Bool
is_after a b = if a.ms == b.ms then ltb b.seq a.seq else ltb b.ms a.ms

-- The relays that are left when those of the expired records are deleted.
unfoldable pub without_expired :
    ℕ → List (String × Pairing) → List (String × Relay) → List (String × Relay)
without_expired now [] relays = relays
without_expired now ((id, r) ∷ rs) relays =
    without_expired now rs (if is_expired r now then delete relays id else relays)

unfoldable pub sweep : MemoryStore → ℕ → MemoryStore
unfolding without_expired
sweep s now = record {
  records = keep (λ e. not (is_expired e.1 now)) s.records;
  relays = keep (λ e. not (leb e.1.expires_at now)) (without_expired now s.records s.relays);
}

-- The result says whether the record was added; an id that is taken throws.
unfoldable pub create : MemoryStore → Pairing → ℕ → Bool × MemoryStore
create s r now =
    let swept = sweep s now in
    if is_some (get swept.records r.id)
    then (false, swept)
    else (true, record swept { records = put swept.records r.id r })

unfoldable pub find : MemoryStore → String → ℕ → Option Pairing × MemoryStore
find s id now = let swept = sweep s now in (get swept.records id, swept)

unfoldable pub update :
    {T : Type 0} → MemoryStore → String → (Pairing → Mutated T) → ℕ → Option T × MemoryStore
update s id mutate now =
    let swept = sweep s now in
    elim (get swept.records id) [
      | none ↦ (none, swept)
      | some r ↦
          let m = mutate r in
          (
            some m.result,
            if m.write then record swept { records = put swept.records id m.draft } else swept,
          )
    ]

unfoldable pub remove : MemoryStore → String → MemoryStore
remove s id = record { records = delete s.records id; relays = delete s.relays id }

pub data Gate : Type 0 where
  pass not_found unauthorized not_relay : Gate

abbrev pub is_role : Role → Option Role → Bool
is_role receiver (some receiver) = true
is_role sender (some sender) = true
is_role _ _ = false

-- `relayGate` on the swept store
unfoldable pub relay_gate : (String → String) → MemoryStore → String → Role → String → Gate
relay_gate digest s id role token = elim (get s.records id) [
  | none ↦ not_found
  | some r ↦
      if not (is_role role (role_for_token digest r (some token)))
      then unauthorized
      else if not (is_approved r.state) || not r.relay
      then not_relay
      else pass
]

-- One round of the loop of `relayAppend`.
unfoldable pub push_frame : ℕ → Relay → PostedFrame → Relay
push_frame now relay f =
    let ms = max now relay.last in
    let seq = if ms == relay.last then relay.seq + 1 else 0 in
    record relay {
      seq = seq;
      last = ms;
      frames = relay.frames ++ record { id = record { ms = ms; seq = seq }; n = f.n; a = f.a } ∷ [];
    }

unfoldable pub push_frames : ℕ → Relay → List PostedFrame → Relay
unfolding push_frame
push_frames now relay [] = relay
push_frames now relay (f ∷ fs) = push_frames now (push_frame now relay f) fs

abbrev pub new_relay : Relay
new_relay = record { frames = []; expires_at = 0; last = 0; seq = 0 }

-- The relay to append to: a new one where there is none that is alive.
abbrev pub current_relay : Option Relay → ℕ → Relay
current_relay none now = new_relay
current_relay (some relay) now = if leb relay.expires_at now then new_relay else relay

unfoldable pub appended : Relay → ℕ → List PostedFrame → Relay
unfolding push_frames
appended relay now fs =
    let pushed = push_frames now relay fs in
    record pushed {
      frames = drop (length pushed.frames - relay_max_stored_frames) pushed.frames;
      expires_at = now + relay_ttl_ms;
    }

unfoldable pub relay_append :
    (String → String) → MemoryStore → String → String → List PostedFrame → ℕ → Gate × MemoryStore
relay_append digest s id token fs now =
    let swept = sweep s now in
    elim (relay_gate digest swept id sender token) [
      | pass ↦ (
        pass,
        record swept {
          relays = put swept.relays id (appended (current_relay (get swept.relays id) now) now fs);
        },
      )
      | other ↦ (other, swept)
    ]

abbrev pub is_newer : Option RelayId → RelayFrame → Bool
is_newer none f = true
is_newer (some after) f = is_after f.id after

abbrev pub newer : Option RelayId → List RelayFrame → List RelayFrame
newer after = keep (is_newer after)

abbrev pub frames_of : Option Relay → ℕ → List RelayFrame
frames_of none now = []
frames_of (some relay) now = if leb relay.expires_at now then [] else relay.frames

-- The gate, with the frames when it lets through.
unfoldable pub relay_read :
    (String → String)
    → MemoryStore
    → String
    → String
    → Option RelayId
    → ℕ
    → ℕ
    → Gate × List RelayFrame × MemoryStore
relay_read digest s id token after count now =
    let swept = sweep s now in
    elim (relay_gate digest swept id receiver token) [
      | pass ↦ (pass, take count (newer after (frames_of (get swept.relays id) now)), swept)
      | other ↦ (other, [], swept)
    ]

unfoldable pub relay_clear : MemoryStore → String → MemoryStore
relay_clear s id = record s { relays = delete s.relays id }

-- GET /api/remote-mic/relay: the cursor of the next read
unfoldable pub next_cursor : Option RelayId → List RelayFrame → Option RelayId
next_cursor after [] = after
next_cursor after (f ∷ fs) = next_cursor (some f.id) fs
