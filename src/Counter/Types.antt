-- ===== src/Counter/Types.antt =====
-- src/counter/types.ts and src/learning/types.ts: the data of a counter session, and what a client
-- may see of it.
use asad.Base.{
  ℕ, ◌-◌, String, Bool, true, false, Option, none, List, map, ltb, keep, is_some, if◌then◌else◌,
}

pub data Participant : Type 0 where
  host guest : Participant

abbrev pub is_host : Participant → Bool
is_host host = true
is_host guest = false

pub data MessageStatus : Type 0 where
  pending done failed : MessageStatus

pub data MessageSource : Type 0 where
  voice text quick_phrase confirm : MessageSource

pub data CounterMessageAction : Type 0 where
  simplify retry : CounterMessageAction

pub data CriticalValueKind : Type 0 where
  integer decimal money date time phone identifier status_code duration name : CriticalValueKind

pub record CriticalValue : Type 0 where
  pub kind : CriticalValueKind
  pub found_text : String
  pub normalized : String

pub data IntegrityIssueKind : Type 0 where
  value : CriticalValueKind → IntegrityIssueKind
  negation : IntegrityIssueKind

pub data IssueReason : Type 0 where
  missing changed added : IssueReason

pub record IntegrityIssue : Type 0 where
  pub kind : IntegrityIssueKind
  pub source_text : String
  pub target_text : Option String
  pub reason : IssueReason

pub data IntegrityStatus : Type 0 where
  verified mismatch : IntegrityStatus

pub record TranslationIntegrity : Type 0 where
  pub status : IntegrityStatus
  pub issues : List IntegrityIssue

pub data HumanReviewFlagKind : Type 0 where
  translation_integrity low_confidence explicit_threat self_harm_language : HumanReviewFlagKind

pub data Severity : Type 0 where
  review urgent : Severity

pub record HumanReviewFlag : Type 0 where
  pub kind : HumanReviewFlagKind
  pub severity : Severity
  pub explanation : String

pub data Confidence : Type 0 where
  high medium low : Confidence

-- A kind of risk is its name.
pub record RiskSpan : Type 0 where
  pub span : String
  pub kind : String

-- A message without its number: `Omit<CounterMessage, "seq">`.
pub record Draft : Type 0 where
  pub id : String
  pub sender : Participant
  pub source : MessageSource
  pub client_request_id : Option String
  pub original_text : String
  pub original_lang : String
  pub translated_text : String
  pub target_lang : String
  pub at : ℕ
  pub status : MessageStatus
  pub confidence : Option Confidence
  pub note : Option String
  pub risks : Option (List RiskSpan)
  pub rephrase_of : Option String
  pub action : Option CounterMessageAction
  pub action_of : Option String
  pub critical_values : Option (List CriticalValue)
  pub integrity : Option TranslationIntegrity
  pub review_flags : Option (List HumanReviewFlag)
  pub error : Option String

pub record CounterMessage : Type 0 where
  pub draft : Draft
  pub open draft use *
  pub seq : ℕ

pub data SessionState : Type 0 where
  waiting active ended : SessionState

abbrev pub is_waiting : SessionState → Bool
is_waiting waiting = true
is_waiting _ = false

abbrev pub is_active : SessionState → Bool
is_active active = true
is_active _ = false

pub record CounterSession : Type 0 where
  pub code : String
  pub host_token_hash : String
  pub guest_token_hash : Option String
  pub created_at : ℕ
  pub last_activity_at : ℕ
  pub state : SessionState
  pub host_lang : String
  pub guest_lang : Option String
  pub guest_joined_at : Option ℕ
  pub messages : List CounterMessage
  pub next_seq : ℕ
  pub desk_label : Option String
  pub profile_id : String

pub record SessionView : Type 0 where
  pub code : String
  pub state : SessionState
  pub host_lang : String
  pub guest_lang : Option String
  pub desk_label : Option String
  pub profile_id : String
  pub messages : List CounterMessage
  pub seq : ℕ
  pub guest_present : Bool

unfoldable pub to_participant_message : Participant → CounterMessage → CounterMessage
to_participant_message viewer m =
    if is_host viewer then m else record m { draft = record m.draft { review_flags = none } }

unfoldable pub to_view : CounterSession → ℕ → Participant → SessionView
to_view s since viewer = record {
  code = s.code;
  state = s.state;
  host_lang = s.host_lang;
  guest_lang = s.guest_lang;
  desk_label = s.desk_label;
  profile_id = s.profile_id;
  messages = map (to_participant_message viewer) (keep (λ m. ltb since m.seq) s.messages);
  seq = s.next_seq - 1;
  guest_present = is_some s.guest_joined_at;
}
