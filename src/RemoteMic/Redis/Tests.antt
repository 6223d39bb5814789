-- ===== src/RemoteMic/Redis/Tests.antt =====
-- src/remote-mic/store.ts: an update that loses one race, one that loses all of them, and the gates.
use asad.Base.{
  ℕ, ◌-◌, ◌==◌, if◌then◌else◌, str_eq, subst, String, ◌≡◌, refl, true, false, some, List, [], ◌∷◌,
}
use asad.RemoteMic.Protocol.{sender, rejected}
use asad.RemoteMic.Session.{
  Pairing, new_pairing, end_pairing, apply_claim, sender_secret, hash_secret, hashes_match,
}
use asad.RemoteMic.Routes.{Mutated}
use asad.RemoteMic.Store.{relay_gate}
use asad.RemoteMic.Redis.{Envelope, Interference, written, attempt, update, script_gate}
use asad.RemoteMic.Redis.Atomic.{IsSerial, update-IsSerial}
use asad.RemoteMic.Redis.Gates.{script_gate-relay_gate}
use asad.Base.Dict.{get}

abbrev digest : String → String
digest s = s

abbrev opened : Pairing
opened = new_pairing digest "pair" "computer" "secret" 1_000

abbrev claimed_by_phone : Pairing
claimed_by_phone = (apply_claim digest opened "secret" "phone" "12" 2_000).1

abbrev entry : Envelope
entry = record { rev = 1; pairing = opened }

abbrev finish : Pairing → Mutated ℕ
finish r = record { write = true; result = 7; draft = end_pairing r rejected 3_000 }

-- In the first attempt another request writes in between.
abbrev one_race : ℕ → List Interference × List Interference
one_race n = ([], if n == 8 then written 1 claimed_by_phone ∷ [] else [])

-- In each attempt, another request writes the revision that was read.
abbrev all_races : ℕ → List Interference × List Interference
all_races n = ([], written (9 - n) opened ∷ [])

update-IsSerial_example : IsSerial finish (some entry) 7 (update finish one_race (some entry)).1
unfolding attempt
update-IsSerial_example = update-IsSerial finish one_race (some entry) 7 refl

script_gate-relay_gate_example :
    script_gate digest (some (record { rev = 2; pairing = claimed_by_phone })) sender "phone"
    ≡ relay_gate digest
        (record { records = ("pair", claimed_by_phone) ∷ []; relays = [] })
        "pair"
        sender
        "phone"
unfolding get apply_claim new_pairing hash_secret hashes_match
script_gate-relay_gate_example =
    script_gate-relay_gate digest
      (record { records = ("pair", claimed_by_phone) ∷ []; relays = [] }) "pair"
      (record { rev = 2; pairing = claimed_by_phone }) sender "phone" refl
      (record {
        receiver_hash = refl;
        sender_hash = λ h e.
            let same : hash_secret digest sender_secret "phone" ≡ h = cc in
            subst (λ x. str_eq x "" ≡ false) same refl;
        apart = λ e. cc;
        given = refl;
        short = refl;
      })
