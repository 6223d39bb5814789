-- ===== src/Llm/Router/Turns.antt =====
-- src/providers/llm/types.ts and router.ts: a turn, what providers answer, and what comes of it.
use asad.Base.{
  ℕ, ◌+◌, ◌-◌, min, String, Bool, true, false, ◌||◌, Option, none, some, List, [], ◌∷◌, ◌++◌, ltb,
  if◌then◌else◌, get_or_else, length, is_some,
}
use asad.Llm.Breaker.{FailureKind}
use asad.Llm.Errors.{Thrown}
use asad.Llm.Providers.{ProviderId}
use asad.Llm.Quota.{RateLimitSnapshot}
use asad.Llm.Router.{Router, ProviderFilter, SkipReason}

pub record LlmUsage : Type 0 where
  pub input_tokens : Option ℕ
  pub output_tokens : Option ℕ
  pub total_tokens : Option ℕ
  pub cached_input_tokens : Option ℕ

pub record LlmResponse : Type 0 where
  pub text : String
  pub usage : Option LlmUsage
  pub rate_limit : Option RateLimitSnapshot
  pub model : Option String
  pub latency_ms : ℕ

pub data Outcome : Type 0 where
  responded : LlmResponse → Outcome
  threw : Thrown → Outcome

-- How a call settles: after how long, with what, and whether the caller has aborted by then.
pub record Answer : Type 0 where
  pub took : ℕ
  pub outcome : Outcome
  pub aborted : Bool

pub record RouteRecovery : Type 0 where
  pub id : String
  pub available : Bool
  pub answer : Answer

pub record Options : Type 0 where
  pub deadline_ms : ℕ
  pub validate : Option (LlmResponse → Bool)
  pub estimated_tokens : Option ℕ
  pub prefer : Option ProviderFilter
  pub routing_key : Option String
  pub turn_deadline_ms : Option ℕ
  pub min_attempt_ms : Option ℕ
  pub recovery : Option RouteRecovery

-- A turn: when it starts, its options, and what each provider would answer.
pub record Turn : Type 0 where
  pub started_at : ℕ
  pub options : Options
  pub answers : ProviderId → Answer

-- Who an attempt was made with: a provider, or a recovery route.
pub data Label : Type 0 where
  provider : ProviderId → Label
  route : String → Label

pub data AttemptFailure : Type 0 where
  skipped deadline : AttemptFailure
  failed : FailureKind → AttemptFailure

pub data Message : Type 0 where
  skip_reason : SkipReason → Message
  no_budget_left : Message
  message_text : String → Message

pub record RouteAttempt : Type 0 where
  pub provider : Label
  pub model : String
  pub ok : Bool
  pub latency_ms : ℕ
  pub failure_kind : Option AttemptFailure
  pub message : Option Message

-- A request that was sent: to whom, when, and how long it may take.
pub record Sent : Type 0 where
  pub to : Label
  pub at : ℕ
  pub budget : ℕ

pub record RouteResult : Type 0 where
  pub response : LlmResponse
  pub provider : ProviderId
  pub model : String
  pub via : Option String
  pub attempts : List RouteAttempt
  pub degraded : Bool
  pub reason : Option Message

pub data Completion : Type 0 where
  answered : RouteResult → Completion
  rejected : Thrown → Completion

-- Where a turn stands.
pub record Walk : Type 0 where
  pub router : Router
  pub attempts : List RouteAttempt
  pub sent : List Sent
  pub now : ℕ

abbrev pub min_useful_attempt_ms : ℕ
min_useful_attempt_ms = 700

abbrev pub min_attempt : Options → ℕ
min_attempt o = get_or_else o.min_attempt_ms min_useful_attempt_ms

-- `left === null` and `left < minAttempt`, for a turn that may have no deadline
abbrev pub budget_in : Options → Option ℕ → ℕ → Option ℕ
budget_in o none elapsed = some o.deadline_ms
budget_in o (some d) elapsed =
    if ltb d (elapsed + min_attempt o) then none else some (min o.deadline_ms (d - elapsed))

-- `budgetFor`: what an attempt may take after the turn has run for a while.
unfoldable pub budget_for : Options → ℕ → Option ℕ
budget_for o elapsed = budget_in o o.turn_deadline_ms elapsed

abbrev pub first_message : List RouteAttempt → Option Message
first_message [] = none
first_message (a ∷ rest) = a.message

abbrev pub unsuccessful : Label → String → ℕ → AttemptFailure → Message → RouteAttempt
unsuccessful who model latency kind message = record {
  provider = who;
  model = model;
  ok = false;
  latency_ms = latency;
  failure_kind = some kind;
  message = some message;
}

abbrev pub successful : Label → String → ℕ → RouteAttempt
successful who model latency = record {
  provider = who;
  model = model;
  ok = true;
  latency_ms = latency;
  failure_kind = none;
  message = none;
}

abbrev pub noted : Walk → RouteAttempt → Walk
noted w a = record w { attempts = w.attempts ++ (a ∷ []) }

-- The result of an answer that comes after the attempts of the walk.
abbrev pub result_of : Walk → LlmResponse → ProviderId → String → Option String → Bool → RouteResult
result_of w response id model via always = record {
  response = response;
  provider = id;
  model = model;
  via = via;
  attempts = w.attempts;
  degraded = always || ltb 1 (length w.attempts);
  reason = if is_some via || ltb 1 (length w.attempts) then first_message w.attempts else none;
}
