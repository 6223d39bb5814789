-- ===== src/RemoteMic/Store/Tests.antt =====
-- src/remote-mic/store.ts: a store with one approved pairing on the relay. The digest is the
-- identity here.
use asad.Base.{String, ◌≡◌, ◌⊎◌, ◌↔◌, refl, none, List, [], ◌∷◌, arith, ◌++◌}
use asad.Base.Dict.{get}
use asad.RemoteMic.Protocol.{receiver, sender, approve, transport, relayed}
use asad.RemoteMic.Session.{Pairing, new_pairing, apply_claim, is_expired, role_for_token}
use asad.RemoteMic.Session.Signal.{apply_signal, on_approve, on_transport}
use asad.RemoteMic.Store.{
  RelayFrame, PostedFrame, MemoryStore, pass, sweep, relay_append, relay_read, appended, new_relay,
  next_cursor, relay_gate,
}
use asad.RemoteMic.Store.Polling.{Event, written, polled, heard, queued, heard-IsQueue}
use asad.RemoteMic.Store.Vanishing.{relay_vanishes}
use asad.RemoteMic.Store.Access.{Admits, IsTidy, relay-Admits}
use asad.RemoteMic.Store.Lifetime.{created, wrote, fetched, after_calls, after_calls-IsTidy}

abbrev digest : String → String
digest s = s

abbrev opened : Pairing
opened = new_pairing digest "pair" "computer" "secret" 1_000

abbrev relayed_pairing : Pairing
relayed_pairing =
    let claimed = (apply_claim digest opened "secret" "phone" "12" 2_000).1 in
    let approved = (apply_signal claimed receiver approve 3_000).1 in
    (apply_signal approved sender (transport relayed) 4_000).1

abbrev store : MemoryStore
store = record { records = ("pair", relayed_pairing) ∷ []; relays = [] }

store-IsTidy : IsTidy store
unfolding get
store-IsTidy = record { ordered = tt; each_record = (refl, tt); each_relay = tt }

abbrev audio : List PostedFrame
audio = record { n = 0; a = "aa" } ∷ record { n = 1; a = "bb" } ∷ []

abbrev first_frames : List RelayFrame
first_frames =
    record { id = record { ms = 5; seq = 0 }; n = 0; a = "aa" }
    ∷ record { id = record { ms = 5; seq = 1 }; n = 1; a = "bb" }
    ∷ []

appending_numbers : (appended new_relay 5 audio).frames ≡ first_frames
unfolding appended
appending_numbers = refl

abbrev events : List Event
events = written 5 audio ∷ polled 1 ∷ written 5 audio ∷ polled 20 ∷ []

hearing : heard new_relay none events ≡ audio ++ audio
unfolding heard appended next_cursor
hearing = refl

heard-IsQueue_example : heard new_relay none events ≡ queued [] events
heard-IsQueue_example = heard-IsQueue events

relay-Admits_example :
    let wrote = relay_append digest store "pair" "phone" audio 5_000 in
    let got = relay_read digest store "pair" "phone" none 20 5_000 in
    ((wrote.0 ≡ pass) ↔ Admits digest (sweep store 5_000) "pair" sender "phone")
    × ((wrote.0 ≡ pass) ⊎ (wrote.1 ≡ sweep store 5_000))
    × ((got.0 ≡ pass) ↔ Admits digest (sweep store 5_000) "pair" receiver "phone")
    × ((got.0 ≡ pass) ⊎ (got.1 ≡ []))
relay-Admits_example = relay-Admits digest store "pair" "phone" audio none 20 5_000

after_calls-IsTidy_example : IsTidy (
    after_calls digest
      (record { records = []; relays = [] })
      (created relayed_pairing 4_000
        ∷ wrote "pair" "phone" audio 5_000
        ∷ fetched "pair" "computer" none 20 6_000
        ∷ []))
after_calls-IsTidy_example = after_calls-IsTidy digest (
    created relayed_pairing 4_000
    ∷ wrote "pair" "phone" audio 5_000
    ∷ fetched "pair" "computer" none 20 6_000
    ∷ [])

relay_vanishes_example :
    (relay_read digest
      (after_calls digest
        (relay_append digest store "pair" "phone" audio 5_000).1
        (fetched "pair" "computer" none 20 64_000 ∷ []))
      "pair"
      "computer"
      none
      20
      65_000).1
    ≡ []
unfolding relay_append relay_gate get sweep is_expired apply_signal apply_claim new_pairing
    on_approve on_transport role_for_token
relay_vanishes_example =
    relay_vanishes digest store "pair" "phone" "computer" audio
      (fetched "pair" "computer" none 20 64_000 ∷ []) none 20 5_000 65_000 store-IsTidy refl
      (tt, tt) (omega arith)
