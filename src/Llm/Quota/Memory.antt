-- ===== src/Llm/Quota/Memory.antt =====
-- src/providers/llm/rate-limit.ts: a 429 is remembered for five minutes by every operation, and a
-- provider is abandoned for as long.
use asad.Base.{
  ℕ, ◌+◌, ◌<◌, ◌≡◌, Bool, true, Option, none, some, List, [], ◌∷◌, ◌++◌, arith, keep, length,
  exists, ◌==◌,
}
use asad.Llm.Providers.{FreeTierQuota}
use asad.Llm.Quota.{
  Tracker, at_least, pressure, pressure_abandon, is_recent, roll, record_request,
  record_rate_limited, observe, RateLimitSnapshot, memory_of_429_ms,
}
use asad.Llm.Quota.Worst.{pressure_of-abandons}

-- Whether a list of times has the time.
abbrev pub has : ℕ → List ℕ → Bool
has t ts = exists (λ x. x == t) ts

has-length : (t : ℕ) (ts : List ℕ) → has t ts ≡ true → 0 < length ts
has-length t [] e = cc
has-length t (x ∷ xs) e = omega arith

has-keep :
    (t now : ℕ) (ts : List ℕ)
    → now < t + memory_of_429_ms
    → has t ts ≡ true
    → has t (keep (is_recent now) ts) ≡ true
has-keep t now [] h e = e
has-keep t now (x ∷ xs) h e = ground (arith, has-keep t now xs h)

has-append_right : (t : ℕ) (ts : List ℕ) → has t (ts ++ (t ∷ [])) ≡ true
has-append_right t [] = ground arith
has-append_right t (x ∷ xs) = ground (arith, has-append_right t xs)

has-append_left : (t : ℕ) (ts us : List ℕ) → has t ts ≡ true → has t (ts ++ us) ≡ true
has-append_left t [] us e = cc
has-append_left t (x ∷ xs) us e = ground (arith, has-append_left t xs us)

-- A tracker that remembers a 429 of the time.
abbrev pub Remembers : ℕ → Tracker → Type 0
Remembers t k = has t k.recent_429s ≡ true

pub record_rate_limited-Remembers : (t : ℕ) (k : Tracker) → Remembers t (record_rate_limited t k)
unfolding record_rate_limited roll
record_rate_limited-Remembers t k = has-append_right t _

module _ (t now : ℕ) (k : Tracker) (h : now < t + memory_of_429_ms) (r : Remembers t k) where
  pub roll-Remembers : Remembers t (roll now k)
  unfolding roll
  roll-Remembers = has-keep t now k.recent_429s h r

  pub again-Remembers : Remembers t (record_rate_limited now k)
  unfolding record_rate_limited
  again-Remembers = has-append_left t (roll now k).recent_429s (now ∷ []) roll-Remembers

  pub record_request-Remembers : (n : ℕ) → Remembers t (record_request n now k)
  unfolding record_request
  record_request-Remembers n = roll-Remembers

  pub observe-Remembers : (o : Option RateLimitSnapshot) → Remembers t (observe o k)
  unfolding observe
  observe-Remembers none = r
  observe-Remembers (some s) = r

  pub pressure-abandons :
      (q : Option FreeTierQuota) → at_least (pressure q now k).0.level pressure_abandon ≡ true
  unfolding pressure
  pressure-abandons q =
      pressure_of-abandons q (roll now k) (has-length t (roll now k).recent_429s roll-Remembers)

  pub pressure-Remembers : (q : Option FreeTierQuota) → Remembers t (pressure q now k).1
  unfolding pressure
  pressure-Remembers q = roll-Remembers
