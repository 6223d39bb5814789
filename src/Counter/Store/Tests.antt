-- ===== src/Counter/Store/Tests.antt =====
-- src/counter/store.ts: a session with two messages.
use asad.Base.{
  is_some, every, ℕ, ◌-◌, String, ◌≡◌, none, some, [], ◌∷◌, map, drop, arith, All, ltb,
  if◌then◌else◌, str_eq,
}
use asad.Base.Dict.{get}
use asad.Counter.Types.{
  guest, Draft, CounterSession, text, pending, review, low_confidence, to_participant_message,
  to_view,
}
use asad.Counter.Store.{
  Sessions, CreateInput, new_session, create, sweep, max_messages, bound_messages, append_message,
}
use asad.Counter.Store.Cursor.{
  IsSound, append_all, numbered, bound_messages-IsSound, poll_whole, to_view-private,
}
use asad.Counter.Store.Sessions.{drawn, create-every}

abbrev input : CreateInput
input = record { host_lang = "ko-KR"; host_token_hash = "h"; desk_label = none; profile_id = none }

abbrev opened : CounterSession
opened = new_session input "TY-1" 1_000

opened-IsSound : IsSound opened
opened-IsSound = record { rising = omega arith; bounded = omega arith }

abbrev draft : Draft
draft = record {
  id = "m";
  sender = guest;
  source = text;
  client_request_id = none;
  original_text = "hello";
  original_lang = "en-US";
  translated_text = "";
  target_lang = "ko-KR";
  at = 2_000;
  status = pending;
  confidence = none;
  note = none;
  risks = none;
  rephrase_of = none;
  action = none;
  action_of = none;
  critical_values = none;
  integrity = none;
  review_flags = some (record { kind = low_confidence; severity = review; explanation = "" } ∷ []);
  error = none;
}

bound_messages-IsSound_example : IsSound (bound_messages (append_all opened (draft ∷ draft ∷ [])))
bound_messages-IsSound_example = bound_messages-IsSound opened (draft ∷ draft ∷ []) opened-IsSound

poll_whole_example :
    (to_view
      (bound_messages (append_all opened (draft ∷ draft ∷ [])))
      (to_view opened 0 guest).seq
      guest).messages
    ≡ map (to_participant_message guest) (drop (2 - max_messages) (numbered 1 (draft ∷ draft ∷ [])))
poll_whole_example = poll_whole opened (draft ∷ draft ∷ []) 0 guest opened-IsSound

to_view-private_example :
    All (λ m. m.review_flags ≡ none) (to_view (append_message opened draft) 0 guest).messages
to_view-private_example = to_view-private (append_message opened draft) 0

abbrev draws : ℕ → String
draws n = if ltb n 3 then "TY-1" else "TY-2"

create-every_example :
    let m : Sessions = ("TY-1", opened) ∷ [] in
    let (s, next) = create m input draws 2_000 in
    (is_some (get (sweep m 2_000) s.code)
      ≡ every (λ code. is_some (get (sweep m 2_000) code)) (drawn draws 9 0))
    × (get next "TY-1" ≡ (if str_eq s.code "TY-1" then some s else get (sweep m 2_000) "TY-1"))
create-every_example = create-every (("TY-1", opened) ∷ []) input draws 2_000 "TY-1"
