-- ===== src/Limits/Requests/Tests.antt =====
-- src/lib/rate-limit.ts: the limiter on concrete checks.
use asad.Base.{ℕ, min, String, ◌≡◌, refl, true, List, [], ◌∷◌, arith}
use asad.Limits.Requests.{Rule, check, verdict, evict}
use asad.Base.Dict.{get, put, delete}
use asad.Limits.Requests.Budget.{allowed_for, asked, allowed_for-budget, retry_after_allows}

abbrev two_a_second : Rule
two_a_second = record { limit = 2; window_ms = 1_000 }

abbrev busy : List (String × ℕ)
busy = ("a", 10) ∷ ("b", 20) ∷ ("a", 30) ∷ ("a", 1_000) ∷ []

allowed_twice : allowed_for two_a_second 9 "a" [] busy ≡ 2
unfolding allowed_for check verdict get evict put delete
allowed_twice = refl

allowed_for-budget_example :
    allowed_for two_a_second 9 "a" [] busy ≡ min 2 (asked two_a_second 9 "a" busy)
unfolding get
allowed_for-budget_example = allowed_for-budget two_a_second 9 "a" [] busy 10 refl (omega arith) (
  (omega arith, omega arith),
  ((omega arith, omega arith), ((omega arith, omega arith), ((omega arith, omega arith), tt))),
)

retry_after_allows_example :
    (check two_a_second 9
      (check two_a_second 9 (("a", record { started_at = 5; count = 2 }) ∷ []) "a" 10).1
      "a"
      1_010).0.allowed
    ≡ true
unfolding check verdict get
retry_after_allows_example =
    retry_after_allows two_a_second 9 (("a", record { started_at = 5; count = 2 }) ∷ []) "a" 10
      1_010 (omega arith) (omega arith)
