-- ===== src/Live/Lane/Tests.antt =====
-- Tests of the contextual lane, and examples of its theorems.
use asad.Base.{
  ℕ, ◌≡◌, refl, Bool, true, false, none, [], ◌∷◌, arith, All, length, ◌≤◌, ◌==◌, if◌then◌else◌,
  Bool-cases, inl, inr,
}
use asad.Llm.Deadlines.{turn_budget_for}
use asad.Live.Lane.{World, refused, replied, from_cloud, interpreted, cloud, interpret}
use asad.Live.Lane.Budget.{IsTimely, interpret-IsTimely}
use asad.Live.Lane.Answers.{IsAnswer, IsUnaborted, interpret-IsAnswer}
use asad.Live.Lane.Bypass.{sent_over, limited-rests}

-- The first request is answered with the status, and the second is interpreted.
abbrev twice : ℕ → Bool → ℕ → World
twice status translator t = record {
  started_at = t;
  lag = none;
  exchange = λ n. record {
    took = 500;
    reply = if n == 0 then refused status none else replied from_cloud;
    aborts_wait = false;
    aborts_delay = false;
    late_wait = 3;
    late_delay = 8;
  };
  ready = λ now. translator;
  provisional_stands = false;
  aborted_then = false;
  translates = translator;
}

retry_test : (interpret (twice 503 false 1_000) 0).1 ≡ interpreted cloud
unfolding interpret turn_budget_for
retry_test = refl

interpret-IsTimely_example :
    All (IsTimely (twice 503 false 1_000) 8) (interpret (twice 503 false 1_000) 0).0.sent
    × (length (interpret (twice 503 false 1_000) 0).0.sent ≤ 3)
interpret-IsTimely_example = interpret-IsTimely (twice 503 false 1_000) 8 0 (λ attempt. omega arith)

twice-IsUnaborted : (n : ℕ) → IsUnaborted ((twice 429 true 1_000).exchange n).reply
twice-IsUnaborted n = elim (Bool-cases (n == 0)) [ inl e ↦ rw (e) tt | inr e ↦ rw (e) tt ]

interpret-IsAnswer_example : IsAnswer (interpret (twice 429 true 1_000) 0).1
interpret-IsAnswer_example =
    interpret-IsAnswer (twice 429 true 1_000)
      (record { replies = twice-IsUnaborted; sleeps = λ n. (refl, refl); falls_back = refl }) 0

limited-rests_example :
    sent_over
      (interpret (twice 429 true 1_000) 0).0.bypass_until
      (twice 200 true 30_000 ∷ twice 200 true 50_000 ∷ [])
    ≡ []
limited-rests_example =
    limited-rests (twice 429 true 1_000) 0 (twice 200 true 30_000 ∷ twice 200 true 50_000 ∷ [])
      (omega arith) (record { after = none; reply = refl; ready = refl; translates = refl })
      (
        record { early = omega arith; ready = refl; translates = refl },
        (record { early = omega arith; ready = refl; translates = refl }, tt),
      )
