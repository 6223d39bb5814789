-- ===== src/Llm/Breaker/History.antt =====
-- src/providers/llm/circuit-breaker.ts: what holds after any sequence of calls of one breaker.
use asad.Base.{
  ℕ, ◌+◌, ◌≤◌, ◌<◌, String, ◌≡◌, refl, Bool-cases, ◌⊎◌, inl, inr, true, false, none, some, List, [],
  ◌∷◌, arith, All, if◌then◌else◌,
}
use asad.Llm.Breaker.{
  Breaker, BreakerConfig, opened, FailureKind, FailureOptions, infinity, initial, is_permanent_kind,
  can_attempt, state, record_success, record_failure, reset,
}

pub data Call : Type 0 where
  succeeded reset_called : Call
  failed : FailureKind → String → FailureOptions → ℕ → Call

unfoldable pub step : BreakerConfig → Breaker → Call → Breaker
step c b succeeded = record_success b
step c b reset_called = reset b
step c b (failed kind message options now) = record_failure c b kind message options now

unfoldable pub run : BreakerConfig → Breaker → List Call → Breaker
run c b [] = b
run c b (e ∷ es) = run c (step c b e) es

pub record IsValid (c : BreakerConfig) (b : Breaker) : Type 0 where
  -- only a confirmed failure waits for ever
  pub waits : b.open_until ≡ some infinity → b.permanent ≡ true
  -- below the number of confirmations nothing is permanent
  pub unconfirmed : b.permanent ≡ false → b.permanent_signals < c.permanent_confirmations
  -- a closed circuit has fewer failures in a row than the threshold, and no backoff to remember
  pub quiet :
      b.open_until ≡ none
      → b.permanent ≡ false
      → (b.consecutive_failures < c.threshold) × (b.opens ≡ 0) × (b.permanent_signals ≡ 0)
  pub counted : b.consecutive_failures ≤ b.total_failures
  pub signalled : b.permanent_signals ≤ b.consecutive_failures
  pub backed_off : b.opens ≤ b.consecutive_failures

module _ (c : BreakerConfig) (confirms : 0 < c.permanent_confirmations)
    (strikes : 0 < c.threshold) where
  initial-IsValid : IsValid c initial
  initial-IsValid = record {
    waits = λ e. cc;
    unconfirmed = λ _. confirms;
    quiet = λ _ _. (strikes, refl, refl);
    counted = omega arith;
    signalled = omega arith;
    backed_off = omega arith;
  }

  step-IsValid : (b : Breaker) (e : Call) → IsValid c b → IsValid c (step c b e)
  unfolding step record_success record_failure reset
  step-IsValid b succeeded v = record {
    waits = λ e. cc;
    unconfirmed = λ _. confirms;
    quiet = λ _ _. (strikes, refl, refl);
    counted = omega arith;
    signalled = omega arith;
    backed_off = omega arith;
  }
  step-IsValid b reset_called v = record {
    waits = λ e. cc;
    unconfirmed = λ _. confirms;
    quiet = λ _ _. (strikes, refl, refl);
    counted = omega arith;
    signalled = omega arith;
    backed_off = omega arith;
  }
  step-IsValid b (failed kind message options now) v = record {
    waits = λ e. ground arith;
    unconfirmed = λ e. ground (arith, v.unconfirmed);
    quiet = λ e f. ground (arith, v.quiet);
    counted = ground arith;
    signalled = ground arith;
    backed_off = ground arith;
  }

  run-IsValid : (b : Breaker) (es : List Call) → IsValid c b → IsValid c (run c b es)
  unfolding run
  run-IsValid b [] v = v
  run-IsValid b (e ∷ es) v = run-IsValid (step c b e) es (step-IsValid b e v)

  -- After any calls on a new breaker whose threshold and number of confirmations are positive: the
  -- deadline is infinite only if the breaker is permanently disabled; one that is not has seen
  -- fewer permanent-looking failures since the last success than it takes; and one with no
  -- deadline that is not disabled has fewer failures in a row than the threshold, no opening to
  -- back off from and no such failure. The counts of failures in a row, of openings and of
  -- permanent-looking failures never pass those that contain them.
  pub run-initial-IsValid : (es : List Call) → IsValid c (run c initial es)
  run-initial-IsValid es = run-IsValid initial es initial-IsValid

abbrev pub IsNotReset : Call → Type 0
IsNotReset reset_called = ⊥
IsNotReset _ = Unit

step-permanent :
    (c : BreakerConfig) (b : Breaker) (e : Call)
    → IsNotReset e
    → b.permanent ≡ true
    → (step c b e).permanent ≡ true
unfolding step record_success record_failure
step-permanent c b succeeded n p = p
step-permanent c b reset_called n p = absurd n
step-permanent c b (failed kind message options now) n p = ground arith

run-permanent :
    (c : BreakerConfig) (b : Breaker) (es : List Call)
    → All IsNotReset es
    → b.permanent ≡ true
    → (run c b es).permanent ≡ true
unfolding run
run-permanent c b [] h p = p
run-permanent c b (e ∷ es) h p = run-permanent c (step c b e) es h.1 (step-permanent c b e h.0 p)

-- A permanently disabled breaker lets no request through and shows as open at every later time,
-- whatever successes and failures are recorded, as long as it is not reset.
pub run-stays_disabled :
    (c : BreakerConfig) (b : Breaker) (es : List Call) (now : ℕ)
    → All IsNotReset es
    → b.permanent ≡ true
    → (can_attempt (run c b es) now ≡ false) × (state (run c b es) now ≡ opened)
unfolding can_attempt state
run-stays_disabled c b es now h p =
    (rw (run-permanent c b es h p) refl, rw (run-permanent c b es h p) refl)

-- The calls that record a failure, and how many of those look permanent.
abbrev pub IsFailure : Call → Type 0
IsFailure (failed _ _ _ _) = Unit
IsFailure _ = ⊥

unfoldable pub permanent_count : List Call → ℕ
permanent_count [] = 0
permanent_count (failed kind _ _ _ ∷ es) =
    (if is_permanent_kind kind then 1 else 0) + permanent_count es
permanent_count (_ ∷ es) = permanent_count es

-- Either already disabled, or all signals so far are counted.
abbrev Counts : ℕ → Breaker → Type 0
Counts n b = (b.permanent ≡ true) ⊎ (n ≤ b.permanent_signals)

run-Counts :
    (c : BreakerConfig) (b : Breaker) (es : List Call) (n : ℕ)
    → All IsFailure es
    → Counts n b
    → Counts (n + permanent_count es) (run c b es)
unfolding run step permanent_count record_failure
run-Counts c b [] n h (inl p) = inl p
run-Counts c b [] n h (inr p) = inr (omega arith)
run-Counts c b (succeeded ∷ es) n h p = absurd h.0
run-Counts c b (reset_called ∷ es) n h p = absurd h.0
run-Counts c b (failed kind message options now ∷ es) n h p =
    let next = record_failure c b kind message options now in
    let k : ℕ = if is_permanent_kind kind then 1 else 0 in
    let counted : Counts (n + k) next = ground arith in
    let e : n + k + permanent_count es ≡ n + (k + permanent_count es) = omega arith in
    rw (← e) (run-Counts c next es (n + k) h.1 counted)

-- Failures alone, with at least as many permanent-looking ones among them as it takes to confirm,
-- disable a valid breaker, whatever transient failures stand between them.
pub run-confirmed :
    (c : BreakerConfig) (b : Breaker) (es : List Call)
    → IsValid c b
    → 0 < c.permanent_confirmations
    → 0 < c.threshold
    → All IsFailure es
    → c.permanent_confirmations ≤ permanent_count es
    → (run c b es).permanent ≡ true
run-confirmed c b es v confirms strikes h enough = elim (Bool-cases (run c b es).permanent) [
  | inl p ↦ p
  | inr q ↦ elim (run-Counts c b es 0 h (inr (omega arith))) [
    | inl p ↦ p
    | inr p ↦ absurd (omega (arith, (run-IsValid c confirms strikes b es v).unconfirmed q))
  ]
]
