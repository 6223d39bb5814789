-- ===== src/Llm/Quota.antt =====
-- src/providers/llm/rate-limit.ts: `RateLimitTracker`, what one process knows of a provider's quota.
-- A call takes the reading of the clock. A level of pressure is an exact fraction, where the source
-- divides floating-point numbers; the texts of the scores are left out, their limit is kept.
pub mod Worst
pub mod Memory
use asad.Base.{
  ℕ, ◌+◌, ◌-◌, ◌*◌, min, Bool, true, false, not, ◌&&◌, Option, none, some, List, [], ◌∷◌, ◌++◌, leb,
  ltb, ◌==◌, if◌then◌else◌, keep, length, is_some,
}
use asad.Llm.Providers.{FreeTierQuota}
use asad.Llm.Providers.Terms.{Binding, rpm, tpm, rpd}

pub record RateLimitSnapshot : Type 0 where
  pub requests_remaining : Option ℕ
  pub tokens_remaining : Option ℕ
  pub reset_at : Option ℕ
  pub observed_at : ℕ

pub record Window : Type 0 where
  pub started_at : ℕ
  pub requests : ℕ
  pub tokens : ℕ

pub record Tracker : Type 0 where
  pub minute : Window
  pub day : Window
  pub observed : Option RateLimitSnapshot
  pub recent_429s : List ℕ

abbrev pub fresh_window : ℕ → Window
fresh_window t = record { started_at = t; requests = 0; tokens = 0 }

abbrev pub new_tracker : ℕ → Tracker
new_tracker t = record {
  minute = fresh_window t;
  day = fresh_window t;
  observed = none;
  recent_429s = [];
}

abbrev pub minute_ms : ℕ
minute_ms = 60_000

abbrev pub day_ms : ℕ
day_ms = 86_400_000

abbrev pub memory_of_429_ms : ℕ
memory_of_429_ms = 5 * 60_000

-- `t - startedAt >= length`
abbrev pub roll_window : ℕ → ℕ → Window → Window
roll_window span t w = if leb (w.started_at + span) t then fresh_window t else w

-- `t - at < 5 * 60_000`
abbrev pub is_recent : ℕ → ℕ → Bool
is_recent t seen = ltb t (seen + memory_of_429_ms)

unfoldable pub roll : ℕ → Tracker → Tracker
roll t k = record k {
  minute = roll_window minute_ms t k.minute;
  day = roll_window day_ms t k.day;
  recent_429s = keep (is_recent t) k.recent_429s;
}

abbrev pub count_request : ℕ → Window → Window
count_request n w = record w { requests = w.requests + 1; tokens = w.tokens + n }

unfoldable pub record_request : ℕ → ℕ → Tracker → Tracker
unfolding roll
record_request n t k =
    let rolled = roll t k in
    record rolled { minute = count_request n rolled.minute; day = count_request n rolled.day }

unfoldable pub record_rate_limited : ℕ → Tracker → Tracker
unfolding roll
record_rate_limited t k =
    let rolled = roll t k in record rolled { recent_429s = rolled.recent_429s ++ (t ∷ []) }

unfoldable pub observe : Option RateLimitSnapshot → Tracker → Tracker
observe none k = k
observe (some s) k = record k { observed = some s }

unfoldable pub recent_rate_limit_count : ℕ → Tracker → ℕ × Tracker
unfolding roll
recent_rate_limit_count t k = let rolled = roll t k in (length rolled.recent_429s, rolled)

-- A level between 0 and 1: `part` out of `whole`, which is not 0.
pub record Level : Type 0 where
  pub part : ℕ
  pub whole : ℕ

-- `clamp(part / whole)`
abbrev pub clamp : ℕ → ℕ → Level
clamp part whole = record { part = min part whole; whole = whole }

-- `a >= b` and `b > a` of levels
abbrev pub at_least : Level → Level → Bool
at_least a b = leb (b.part * a.whole) (a.part * b.whole)

abbrev pub above : Level → Level → Bool
above b a = ltb (a.part * b.whole) (b.part * a.whole)

abbrev pub zero_level : Level
zero_level = record { part = 0; whole = 1 }

abbrev pub pressure_compact : Level
pressure_compact = record { part = 3; whole = 5 }

abbrev pub pressure_abandon : Level
pressure_abandon = record { part = 9; whole = 10 }

pub record PressureScore : Type 0 where
  pub level : Level
  pub hard : Bool
  pub binding : Option Binding

pub record QuotaPressure : Type 0 where
  pub level : Level
  pub advisory_level : Level
  pub binding : Option Binding

abbrev score : Level → Bool → Option Binding → List PressureScore
score l h b = record { level = l; hard = h; binding = b } ∷ []

-- A limit that is absent or 0 is no limit.
abbrev pub limit : Option ℕ → Option ℕ
limit none = none
limit (some n) = if n == 0 then none else some n

-- The limits of a tracker that may have no quota.
abbrev pub tokens_per_minute : Option FreeTierQuota → Option ℕ
tokens_per_minute none = none
tokens_per_minute (some q) = q.tokens_per_minute

abbrev pub requests_per_minute : Option FreeTierQuota → Option ℕ
requests_per_minute none = none
requests_per_minute (some q) = q.requests_per_minute

abbrev pub requests_per_day : Option FreeTierQuota → Option ℕ
requests_per_day none = none
requests_per_day (some q) = q.requests_per_day

abbrev tokens_reported : Option RateLimitSnapshot → Option ℕ
tokens_reported none = none
tokens_reported (some s) = s.tokens_remaining

-- Tokens: what the provider reports counts before what was counted here.
abbrev pub token_score : Option ℕ → Tracker → List PressureScore
token_score none k = []
token_score (some l) k = elim (tokens_reported k.observed) [
  | some left ↦ score (clamp (l - left) l) true (some tpm)
  | none ↦ score (clamp k.minute.tokens l) true (some tpm)
]

abbrev pub minute_score : Option ℕ → Tracker → List PressureScore
minute_score none k = []
minute_score (some l) k = score (clamp k.minute.requests l) true (some rpm)

-- A daily limit is enforced only where it is the only limit.
abbrev pub daily_score : Option ℕ → Bool → Tracker → List PressureScore
daily_score none daily_only k = []
daily_score (some l) daily_only k = score (clamp k.day.requests l) daily_only (some rpd)

abbrev pub recent_score : ℕ → List PressureScore
recent_score n = if n == 0 then [] else score (clamp (85 + 5 * n) 100) true none

-- Whether the daily limit is the only one.
abbrev pub is_daily_only : Option FreeTierQuota → Bool
is_daily_only q = not (is_some (requests_per_minute q)) && not (is_some (tokens_per_minute q))

unfoldable pub scores : Option FreeTierQuota → Tracker → List PressureScore
scores q k =
    token_score (limit (tokens_per_minute q)) k
    ++ (minute_score (limit (requests_per_minute q)) k
        ++ (daily_score (limit (requests_per_day q)) (is_daily_only q) k
            ++ recent_score (length k.recent_429s)))

-- `reduce((a, b) => b.level > a.level ? b : a)` from the score in hand
unfoldable pub worst : PressureScore → List PressureScore → PressureScore
worst a [] = a
worst a (b ∷ bs) = worst (if above b.level a.level then b else a) bs

abbrev pub worst_level : List PressureScore → Level
worst_level [] = zero_level
worst_level (a ∷ rest) = (worst a rest).level

abbrev worst_binding : List PressureScore → Option Binding
worst_binding [] = none
worst_binding (a ∷ rest) = (worst a rest).binding

abbrev pub is_hard : PressureScore → Bool
is_hard s = s.hard

-- The pressure of a tracker that has been rolled.
unfoldable pub pressure_of : Option FreeTierQuota → Tracker → QuotaPressure
unfolding scores worst
pressure_of q k =
    let all = scores q k in
    record {
      level = worst_level (keep is_hard all);
      advisory_level = worst_level all;
      binding = worst_binding (keep is_hard all);
    }

unfoldable pub pressure : Option FreeTierQuota → ℕ → Tracker → QuotaPressure × Tracker
unfolding roll pressure_of
pressure q t k = let rolled = roll t k in (pressure_of q rolled, rolled)

pub record TrackerSnapshot : Type 0 where
  pub requests_this_minute : ℕ
  pub tokens_this_minute : ℕ
  pub requests_today : ℕ
  pub recent_rate_limits : ℕ
  pub reported : Option RateLimitSnapshot
  pub pressure : QuotaPressure

unfoldable pub snapshot : Option FreeTierQuota → ℕ → Tracker → TrackerSnapshot × Tracker
unfolding pressure
snapshot q t k =
    let (p, rolled) = pressure q t k in
    (
      record {
        requests_this_minute = rolled.minute.requests;
        tokens_this_minute = rolled.minute.tokens;
        requests_today = rolled.day.requests;
        recent_rate_limits = length rolled.recent_429s;
        reported = rolled.observed;
        pressure = p;
      },
      rolled,
    )
