-- ===== src/Llm/Breaker/Opening.antt =====
-- src/providers/llm/circuit-breaker.ts: when the circuit opens, and for how long.
use asad.Base.{
  ℕ, zero, suc, ◌+◌, ◌-◌, ◌*◌, ◌^◌, ◌≤◌, ◌<◌, min, max, String, ◌≡◌, ◌∙◌, refl, true, false, Option,
  none, ◌⊎◌, List, [], ◌∷◌, arith, All, length, get_or_else, leb,
}
use native.Mathlib.Nat.{pow-suc}
use asad.Llm.Breaker.{
  Breaker, BreakerConfig, FailureKind, FailureOptions, is_permanent_kind, can_attempt, cooldown,
  record_failure,
}
use asad.Llm.Breaker.History.{Call, succeeded, reset_called, failed, step, run}

-- A failure that neither looks permanent nor is marked fatal.
abbrev pub IsSoft : Call → Type 0
IsSoft (failed kind _ options _) = (is_permanent_kind kind ≡ false) × (options.fatal ≡ false)
IsSoft _ = ⊥

-- What the soft failures of a run leave: as long as they stay below the threshold the deadline is
-- untouched, and each adds one to the count.
run-below :
    (c : BreakerConfig) (b : Breaker) (es : List Call)
    → All IsSoft es
    → b.consecutive_failures + length es < c.threshold
    → ((run c b es).open_until ≡ b.open_until)
      × ((run c b es).permanent ≡ b.permanent)
      × ((run c b es).consecutive_failures ≡ b.consecutive_failures + length es)
unfolding run step record_failure
run-below c b [] h small = (refl, refl, omega arith)
run-below c b (succeeded ∷ es) h small = absurd h.0
run-below c b (reset_called ∷ es) h small = absurd h.0
run-below c b (failed kind message options now ∷ es) h small =
    let next = record_failure c b kind message options now in
    let same : (next.open_until ≡ b.open_until)
        × (next.permanent ≡ b.permanent)
        × (next.consecutive_failures ≡ b.consecutive_failures + 1) =
      (ground arith, ground arith, ground arith) in
    let ih = run-below c next es h.1 (omega arith) in (ih.0 ∙ same.0, ih.1 ∙ same.1, omega arith)

-- A breaker that is closed lets requests through after soft failures as long as these, with the
-- failures that it counts already, stay below the threshold; the soft failure that reaches the
-- threshold closes the way for exactly the cooldown of one more opening.
pub run-threshold :
    (c : BreakerConfig) (b : Breaker) (es : List Call) (kind : FailureKind) (message : String)
    (options : FailureOptions) (now t : ℕ)
    → b.open_until ≡ none
    → b.permanent ≡ false
    → All IsSoft es
    → b.consecutive_failures + length es + 1 ≡ c.threshold
    → is_permanent_kind kind ≡ false
    → (can_attempt (run c b es) t ≡ true)
      × (can_attempt (record_failure c (run c b es) kind message options now) t
          ≡ leb (now + cooldown c ((run c b es).opens + 1) options.retry_after_seconds) t)
unfolding can_attempt record_failure
run-threshold c b es kind message options now t closed live h full soft =
    let below = run-below c b es h (omega arith) in (ground (arith, below), ground (arith, below))

doubled : (b n : ℕ) → b * 2 ^ suc n ≡ 2 * (b * 2 ^ n)
doubled b n = rw (pow-suc 2 n) (omega arith)

grown : (b n : ℕ) → b ≤ b * 2 ^ n
grown b zero = omega arith
grown b (suc n) = omega (arith, doubled b n, grown b n)

-- The cooldown of an opening is at least the smaller of the base and the cap, at least what the
-- provider asked for, and at most the larger of the cap and that; each opening in a row waits at
-- least as long as the one before it, and twice as long as long as the doubled wait is under the
-- cap and the provider asks for nothing.
pub cooldown_bounds :
    (c : BreakerConfig) (n : ℕ) (retry : Option ℕ)
    → (min c.base_cooldown_ms c.max_cooldown_ms ≤ cooldown c (n + 1) retry)
      × (get_or_else retry 0 * 1000 ≤ cooldown c (n + 1) retry)
      × (cooldown c (n + 1) retry ≤ max c.max_cooldown_ms (get_or_else retry 0 * 1000))
      × (cooldown c (n + 1) retry ≤ cooldown c (n + 2) retry)
      × ((c.max_cooldown_ms < c.base_cooldown_ms * 2 ^ (n + 1))
          ⊎ (cooldown c (n + 2) none ≡ 2 * cooldown c (n + 1) none))
unfolding cooldown
cooldown_bounds c n retry =
    let one : n + 1 ≡ suc n = omega arith in
    let first : suc n - 1 ≡ n = omega arith in
    let second : n + 2 - 1 ≡ suc n = omega arith in
    let twice = doubled c.base_cooldown_ms n in
    let least = grown c.base_cooldown_ms n in
    rw (one, second, first) (omega arith, omega arith, omega arith, omega arith, ground arith)
