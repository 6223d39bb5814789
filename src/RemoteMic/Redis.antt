-- ===== src/RemoteMic/Redis.antt =====
-- src/remote-mic/store.ts: `RedisRemoteMicStore`, one key of it. The database is a third party: what
-- it does for GET, SET NX, DEL and for the script of the store is written out on the value of the
-- key, each as one atomic step. JSON text that the store has written is the envelope itself, and the
-- time to live shows as an entry that is gone. A network failure, which throws, is not modelled.
pub mod Atomic
pub mod Gates
mod Tests
use asad.Base.{
  ℕ, zero, suc, ◌+◌, String, Bool, true, false, not, ◌||◌, Option, none, some, List, [], ◌∷◌, ◌==◌,
  if◌then◌else◌, str_eq, is_some,
}
use asad.RemoteMic.Protocol.{Role, receiver, sender, is_approved}
use asad.RemoteMic.Session.{Pairing, hash_secret, receiver_secret, sender_secret}
use asad.RemoteMic.Routes.{Mutated}
use asad.RemoteMic.Store.{Gate, pass, not_found, unauthorized, not_relay}

pub record Envelope : Type 0 where
  pub rev : ℕ
  pub pairing : Pairing

abbrev pub Entry : Type 0
Entry = Option Envelope

-- `CAS_SCRIPT`: the value of the key is replaced if it still has the revision.
pub data CasResult : Type 0 where
  replaced missing lost : CasResult

unfoldable pub compare_and_set : Entry → ℕ → Envelope → CasResult × Entry
compare_and_set none rev new = (missing, none)
compare_and_set (some old) rev new =
    if old.rev == rev then (replaced, some new) else (lost, some old)

-- What other requests do meanwhile: a write by the script, or the end of the entry. An entry that is
-- gone does not come back: only `create` adds one, under an id that it has just drawn at random.
pub data Interference : Type 0 where
  written : ℕ → Pairing → Interference
  gone : Interference

abbrev pub next_envelope : ℕ → Pairing → Envelope
next_envelope rev r = record { rev = rev + 1; pairing = r }

unfoldable pub interfere : Entry → List Interference → Entry
interfere s [] = s
interfere s (written rev r ∷ is) = interfere (compare_and_set s rev (next_envelope rev r)).1 is
interfere s (gone ∷ is) = interfere none is

-- The result says whether the pairing was added; an id that is taken throws.
abbrev pub create : Entry → Pairing → Bool × Entry
create none r = (true, some (record { rev = 1; pairing = r }))
create (some e) r = (false, some e)

abbrev pub get : Entry → Option Pairing
get none = none
get (some e) = some e.pairing

pub data Updated (T : Type 0) : Type 0 where
  found : T → Updated T
  absent : Updated T
  -- too busy to update safely: throws
  busy : Updated T

abbrev pub update_retries : ℕ
update_retries = 8

-- The loop, with what others do in each attempt before its GET and between its GET and its script.
unfoldable pub attempt :
    {T : Type 0}
    → (Pairing → Mutated T)
    → (ℕ → List Interference × List Interference)
    → ℕ
    → Entry
    → Updated T × Entry
unfolding compare_and_set interfere
attempt mutate others zero s = (busy, s)
attempt mutate others (suc n) s =
    let before = interfere s (others (suc n)).0 in
    elim before [
      | none ↦ (absent, none)
      | some current ↦
          let m = mutate current.pairing in
          let done =
            compare_and_set (interfere (some current) (others (suc n)).1) current.rev
              (next_envelope current.rev m.draft) in
          let again = attempt mutate others n done.1 in
          if m.write
          then elim done.0 [
            | replaced ↦ (found m.result, done.1)
            | missing ↦ (absent, done.1)
            | lost ↦ again
          ]
          else (found m.result, some current)
    ]

abbrev pub update :
    {T : Type 0}
    → (Pairing → Mutated T)
    → (ℕ → List Interference × List Interference)
    → Entry
    → Updated T × Entry
update mutate others s = attempt mutate others update_retries s

-- The hash that a role is checked against.
abbrev pub role_hash : Pairing → Role → Option String
role_hash r receiver = some r.receiver_token_hash
role_hash r sender = r.sender_token_hash

abbrev pub same_hash : Option String → String → Bool
same_hash none h = false
same_hash (some g) h = str_eq g h

abbrev pub presented : (String → String) → Role → String → String
presented digest receiver token = hash_secret digest receiver_secret token
presented digest sender token = hash_secret digest sender_secret token

-- The tests at the head of `RELAY_APPEND_SCRIPT` and `RELAY_READ_SCRIPT`.
unfoldable pub script_gate : (String → String) → Entry → Role → String → Gate
script_gate digest none role token = not_found
script_gate digest (some e) role token =
    if not (same_hash (role_hash e.pairing role) (presented digest role token))
    then unauthorized
    else if not (is_approved e.pairing.state) || not e.pairing.relay
    then not_relay
    else pass
