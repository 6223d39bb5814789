-- ===== src/Llm/Breaker.antt =====
-- src/providers/llm/circuit-breaker.ts: the circuit breaker of one provider.
-- Every operation takes the reading of the clock, which the source takes once or more in one
-- synchronous call; times and counts are natural numbers, and a `Retry-After` is whole seconds.
pub mod History
pub mod Opening
mod Tests
use asad.Base.{
  ℕ, zero, suc, ◌+◌, ◌-◌, ◌*◌, ◌^◌, ◌≤◌, min, max, String, ◌≡◌, refl, Bool, true, false, ◌||◌,
  Option, none, some, List, [], ◌∷◌, arith, ltb, leb, if◌then◌else◌, get_or_else,
}

-- `LlmFailureKind`
pub data FailureKind : Type 0 where
  timeout rate_limited quota_exhausted server_error network malformed_output : FailureKind
  auth bad_request request_rejected unknown : FailureKind

pub data BreakerState : Type 0 where
  healthy degraded opened probing : BreakerState

-- A value of `openUntil` that is set: a time, or `Number.POSITIVE_INFINITY`.
pub data Until : Type 0 where
  at : ℕ → Until
  infinity : Until

pub record BreakerConfig : Type 0 where
  pub threshold : ℕ
  pub base_cooldown_ms : ℕ
  pub max_cooldown_ms : ℕ
  pub permanent_confirmations : ℕ
  pub permanent_probe_ms : ℕ

abbrev pub default_breaker : BreakerConfig
default_breaker = record {
  threshold = 3;
  base_cooldown_ms = 20_000;
  max_cooldown_ms = 5 * 60_000;
  permanent_confirmations = 2;
  permanent_probe_ms = 90_000;
}

pub record LastFailure : Type 0 where
  pub kind : FailureKind
  pub message : String
  pub seen_at : ℕ

pub record Breaker : Type 0 where
  pub consecutive_failures : ℕ
  pub total_failures : ℕ
  pub total_successes : ℕ
  pub opens : ℕ
  pub open_until : Option Until
  pub permanent : Bool
  pub permanent_signals : ℕ
  pub last_failure : Option LastFailure

-- the field initialisers of `CircuitBreaker`
abbrev pub initial : Breaker
initial = record {
  consecutive_failures = 0;
  total_failures = 0;
  total_successes = 0;
  opens = 0;
  open_until = none;
  permanent = false;
  permanent_signals = 0;
  last_failure = none;
}

-- `now >= until`
abbrev pub reached : ℕ → Until → Bool
reached now (at t) = leb t now
reached now infinity = false

unfoldable pub can_attempt : Breaker → ℕ → Bool
can_attempt b now =
    if b.permanent then false else elim b.open_until [ none ↦ true | some u ↦ reached now u ]

unfoldable pub state : Breaker → ℕ → BreakerState
state b now = if b.permanent then opened else elim b.open_until [
  | some u ↦ if reached now u then probing else opened
  | none ↦ if ltb 0 b.consecutive_failures then degraded else healthy
]

unfoldable pub record_success : Breaker → Breaker
record_success b = record b {
  consecutive_failures = 0;
  total_successes = b.total_successes + 1;
  open_until = none;
  opens = 0;
  permanent_signals = 0;
}

-- `kind === "auth" || kind === "bad_request"`
abbrev pub is_permanent_kind : FailureKind → Bool
is_permanent_kind auth = true
is_permanent_kind bad_request = true
is_permanent_kind _ = false

pub record FailureOptions : Type 0 where
  pub fatal : Bool
  pub retry_after_seconds : Option ℕ

-- The counters that every failure moves.
unfoldable pub count_failure : Breaker → FailureKind → String → ℕ → Breaker
count_failure b kind message now = record b {
  total_failures = b.total_failures + 1;
  consecutive_failures = b.consecutive_failures + 1;
  last_failure = some (record { kind = kind; message = message; seen_at = now });
}

-- The branch of a failure that looks permanent.
unfoldable pub record_permanent : BreakerConfig → Breaker → ℕ → Breaker
record_permanent c b now =
    if leb c.permanent_confirmations (b.permanent_signals + 1)
    then record b {
      permanent_signals = b.permanent_signals + 1;
      permanent = true;
      open_until = some infinity;
    }
    else record b {
      permanent_signals = b.permanent_signals + 1;
      open_until = some (at (now + c.permanent_probe_ms));
    }

-- The wait of the `opens`-th opening in a row: doubled each time, capped, and never shorter than
-- what the provider asked for.
unfoldable pub cooldown : BreakerConfig → ℕ → Option ℕ → ℕ
cooldown c opens retry_after =
    max (min (c.base_cooldown_ms * 2 ^ (opens - 1)) c.max_cooldown_ms)
      (get_or_else retry_after 0 * 1000)

unfoldable pub record_transient : BreakerConfig → Breaker → FailureOptions → ℕ → Breaker
record_transient c b options now =
    if options.fatal || leb c.threshold b.consecutive_failures
    then record b {
      opens = b.opens + 1;
      open_until = some (at (now + cooldown c (b.opens + 1) options.retry_after_seconds));
    }
    else b

unfoldable pub record_failure :
    BreakerConfig → Breaker → FailureKind → String → FailureOptions → ℕ → Breaker
unfolding count_failure record_permanent record_transient
record_failure c b kind message options now =
    let counted = count_failure b kind message now in
    if is_permanent_kind kind
    then record_permanent c counted now
    else record_transient c counted options now

unfoldable pub reset : Breaker → Breaker
reset b = record b {
  consecutive_failures = 0;
  open_until = none;
  permanent = false;
  opens = 0;
  permanent_signals = 0;
}

pub record BreakerSnapshot : Type 0 where
  pub state : BreakerState
  pub consecutive_failures : ℕ
  pub total_failures : ℕ
  pub total_successes : ℕ
  pub open_until : Option ℕ
  pub last_failure : Option LastFailure
  pub permanently_disabled : Option Bool
  pub auth_failures : Option ℕ

unfoldable pub snapshot : Breaker → ℕ → BreakerSnapshot
unfolding state
snapshot b now = record {
  state = state b now;
  consecutive_failures = b.consecutive_failures;
  total_failures = b.total_failures;
  total_successes = b.total_successes;
  open_until = elim b.open_until [ some (at t) ↦ some t | _ ↦ none ];
  last_failure = b.last_failure;
  permanently_disabled = if b.permanent then some true else none;
  auth_failures = if ltb 0 b.permanent_signals then some b.permanent_signals else none;
}
