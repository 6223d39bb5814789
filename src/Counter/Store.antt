-- ===== src/Counter/Store.antt =====
-- src/counter/store.ts: `MemoryCounterStore` and the operations on one session. A function that
-- mutates its session returns it, a clone is the value itself, and the codes that `generateCode`
-- draws one after the other are an argument.
pub mod Cursor
pub mod Sessions
mod Tests
use asad.Base.{
  ℕ, zero, suc, ◌+◌, ◌-◌, ◌*◌, String, Bool, true, false, not, Option, none, some, List, [], ◌∷◌,
  ◌++◌, ltb, if◌then◌else◌, str_eq, keep, length, drop, is_some, get_or_else,
}
use asad.Base.Dict.{get, put, delete}
use asad.Counter.Types.{
  Participant, host, guest, Draft, CounterMessage, SessionState, waiting, is_waiting, is_active,
  CounterSession,
}

abbrev pub session_ttl_ms : ℕ
session_ttl_ms = 4 * 60 * 60 * 1000

abbrev pub max_messages : ℕ
max_messages = 500

abbrev pub update_retries : ℕ
update_retries = 8

abbrev pub Sessions : Type 0
Sessions = List (String × CounterSession)

-- `lastActivityAt < now - SESSION_TTL_MS`
abbrev pub is_idle : ℕ → CounterSession → Bool
is_idle now s = ltb (s.last_activity_at + session_ttl_ms) now

unfoldable pub sweep : Sessions → ℕ → Sessions
sweep m now = keep (λ e. not (is_idle now e.1)) m

-- The loop that draws a code: `tries` is how often it may draw again.
unfoldable pub pick_code : Sessions → (ℕ → String) → ℕ → ℕ → String
pick_code m draws zero i = draws i
pick_code m draws (suc tries) i =
    let again = pick_code m draws tries (suc i) in
    if is_some (get m (draws i)) then again else draws i

pub record CreateInput : Type 0 where
  pub host_lang : String
  pub host_token_hash : String
  pub desk_label : Option String
  pub profile_id : Option String

abbrev pub new_session : CreateInput → String → ℕ → CounterSession
new_session input code now = record {
  code = code;
  host_token_hash = input.host_token_hash;
  guest_token_hash = none;
  created_at = now;
  last_activity_at = now;
  state = waiting;
  host_lang = input.host_lang;
  guest_lang = none;
  guest_joined_at = none;
  messages = [];
  next_seq = 1;
  desk_label = input.desk_label;
  profile_id = get_or_else input.profile_id "general";
}

unfoldable pub create : Sessions → CreateInput → (ℕ → String) → ℕ → CounterSession × Sessions
create m input draws now =
    let swept = sweep m now in
    let code = pick_code swept draws update_retries 0 in
    let s = new_session input code now in (s, put swept code s)

unfoldable pub find : Sessions → String → ℕ → Option CounterSession × Sessions
find m code now = (get (sweep m now) code, sweep m now)

unfoldable pub bound_messages : CounterSession → CounterSession
bound_messages s =
    if ltb max_messages (length s.messages)
    then record s { messages = drop (length s.messages - max_messages) s.messages }
    else s

-- A mutation that declines, with `false`, is `none`.
unfoldable pub update :
    Sessions
    → String
    → (CounterSession → Option CounterSession)
    → ℕ
    → Option CounterSession × Sessions
unfolding bound_messages
update m code mutate now =
    let swept = sweep m now in
    elim (get swept code) [
      | none ↦ (none, swept)
      | some current ↦ elim (mutate current) [
        | none ↦ (some current, swept)
        | some s ↦
            let next = bound_messages (record s { last_activity_at = now }) in
            (some next, put swept code next)
      ]
    ]

unfoldable pub end_session : Sessions → String → Bool × Sessions
end_session m code = (is_some (get m code), delete m code)

pub record CounterStoreStats : Type 0 where
  pub active : ℕ
  pub waiting : ℕ
  pub total_messages : ℕ

unfoldable pub count_sessions : Sessions → CounterStoreStats
count_sessions [] = record { active = 0; waiting = 0; total_messages = 0 }
count_sessions ((_, s) ∷ m) =
    let rest = count_sessions m in
    record {
      active = (if is_active s.state then 1 else 0) + rest.active;
      waiting = (if is_waiting s.state then 1 else 0) + rest.waiting;
      total_messages = length s.messages + rest.total_messages;
    }

abbrev pub stats : Sessions → ℕ → CounterStoreStats × Sessions
stats m now = (count_sessions (sweep m now), sweep m now)

unfoldable pub append_message : CounterSession → Draft → CounterSession
append_message s d = record s {
  next_seq = s.next_seq + 1;
  messages = s.messages ++ record { draft = d; seq = s.next_seq } ∷ [];
}

-- The first message with the id is replaced.
abbrev pub replace_first : CounterMessage → List CounterMessage → List CounterMessage
replace_first m [] = []
replace_first m (x ∷ xs) =
    let later = x ∷ replace_first m xs in if str_eq x.id m.id then m ∷ xs else later

abbrev pub replace_message : CounterSession → CounterMessage → CounterSession
replace_message s m = record s { messages = replace_first m s.messages }

abbrev pub target_lang_for : CounterSession → Participant → String
target_lang_for s host = get_or_else s.guest_lang "en-US"
target_lang_for s guest = s.host_lang

abbrev pub source_lang_for : CounterSession → Participant → String
source_lang_for s host = s.host_lang
source_lang_for s guest = get_or_else s.guest_lang "en-US"
