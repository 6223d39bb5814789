-- ===== src/Llm/Quota/Worst.antt =====
-- src/providers/llm/rate-limit.ts: the worst score is no lower than any, and a recent 429 is enough
-- to abandon a provider.
use asad.Base.{
  ℕ, ◌*◌, ◌≤◌, ◌<◌, ◌≡◌, refl, Bool, true, false, Option, none, some, List, [], ◌∷◌, ◌++◌, inl, inr,
  Bool-cases, arith, All, keep, length, if◌then◌else◌, exists, ◌||◌, ◌&&◌, All-append, All-keep,
}
use native.Mathlib.Nat.{mul-le-mul_right, le_of_mul-le-mul_right}
use asad.Llm.Providers.{FreeTierQuota}
use asad.Llm.Quota.{
  Level, PressureScore, Tracker, at_least, above, worst, worst_level, is_hard, scores, pressure_of,
  pressure_abandon, recent_score, token_score, minute_score, daily_score, limit, tokens_per_minute,
  requests_per_minute, is_daily_only, requests_per_day,
}

-- A level that is not below another reaches what the other reaches.
pub at_least_trans :
    (a b l : Level) → 0 < b.whole → above b a ≡ false → at_least b l ≡ true → at_least a l ≡ true
at_least_trans a b l w h k =
    let x : b.part * a.whole * l.whole ≤ a.part * b.whole * l.whole =
      mul-le-mul_right l.whole (ground arith) in
    let y : l.part * b.whole * a.whole ≤ b.part * l.whole * a.whole =
      mul-le-mul_right a.whole (ground arith) in
    let z : l.part * a.whole ≤ a.part * l.whole =
      le_of_mul-le-mul_right {k = b.whole} (omega arith) w in
    ground arith

abbrev reaches : Level → PressureScore → Bool
reaches l s = at_least s.level l

abbrev IsProper : PressureScore → Type 0
IsProper s = 0 < s.level.whole

or_right : {x y : Bool} → x ≡ false → x || y ≡ true → y ≡ true
or_right {x = true} h e = cc
or_right {x = false} h e = e

or_merge : (x y r z : Bool) → (x || y ≡ true → z ≡ true) → x || (y || r) ≡ true → z || r ≡ true
or_merge true y r z f e = rw (f refl) refl
or_merge false true r z f e = rw (f refl) refl
or_merge false false r true f e = refl
or_merge false false r false f e = e

worse-reaches :
    (l : Level) (a b : PressureScore)
    → IsProper a
    → IsProper b
    → reaches l a || reaches l b ≡ true
    → reaches l (if above b.level a.level then b else a) ≡ true
worse-reaches l a b p q e = elim (Bool-cases (reaches l a)) [
  | inl x ↦ elim (Bool-cases (above b.level a.level)) [
    | inl h ↦ rw (h) (at_least_trans b.level a.level l p (ground arith) x)
    | inr h ↦ rw (h) x
  ]
  | inr x ↦ elim (Bool-cases (above b.level a.level)) [
    | inl h ↦ rw (h) (or_right x e)
    | inr h ↦ rw (h) (at_least_trans a.level b.level l q h (or_right x e))
  ]
]

worse-IsProper :
    (c : Bool) (a b : PressureScore) → IsProper a → IsProper b → IsProper (if c then b else a)
worse-IsProper true a b p q = q
worse-IsProper false a b p q = p

pub worst-reaches :
    (l : Level) (a : PressureScore) (xs : List PressureScore)
    → All IsProper (a ∷ xs)
    → exists (reaches l) (a ∷ xs) ≡ true
    → reaches l (worst a xs) ≡ true
unfolding worst
worst-reaches l a [] ps e = ground arith
worst-reaches l a (b ∷ xs) ps e =
    let c = if above b.level a.level then b else a in
    worst-reaches l c xs (worse-IsProper (above b.level a.level) a b ps.0 ps.1.0, ps.1.1)
      (or_merge (reaches l a) (reaches l b) (exists (reaches l) xs) (reaches l c)
        (worse-reaches l a b ps.0 ps.1.0) e)

worst_level-reaches :
    (l : Level) (xs : List PressureScore)
    → All IsProper xs
    → exists (reaches l) xs ≡ true
    → at_least (worst_level xs) l ≡ true
worst_level-reaches l [] ps e = cc
worst_level-reaches l (a ∷ xs) ps e = worst-reaches l a xs ps e

token_score-IsProper : (o : Option ℕ) (k : Tracker) → All IsProper (token_score (limit o) k)
token_score-IsProper none k = tt
token_score-IsProper (some n) k = ground arith

minute_score-IsProper : (o : Option ℕ) (k : Tracker) → All IsProper (minute_score (limit o) k)
minute_score-IsProper none k = tt
minute_score-IsProper (some n) k = ground arith

daily_score-IsProper :
    (o : Option ℕ) (only : Bool) (k : Tracker) → All IsProper (daily_score (limit o) only k)
daily_score-IsProper none only k = tt
daily_score-IsProper (some n) only k = ground arith

recent_score-IsProper : (n : ℕ) → All IsProper (recent_score n)
recent_score-IsProper n = ground arith

scores-IsProper : (q : Option FreeTierQuota) (k : Tracker) → All IsProper (scores q k)
unfolding scores
scores-IsProper q k = All-append IsProper _ _ (token_score-IsProper (tokens_per_minute q) k) (
    All-append IsProper _ _ (minute_score-IsProper (requests_per_minute q) k) (
      All-append IsProper _ _ (daily_score-IsProper (requests_per_day q) _ k)
        (recent_score-IsProper (length k.recent_429s))))

abbrev is_binding : Level → PressureScore → Bool
is_binding l s = s.hard && reaches l s

exists-right :
    (l : Level) (xs ys : List PressureScore)
    → exists (is_binding l) ys ≡ true
    → exists (is_binding l) (xs ++ ys) ≡ true
exists-right l [] ys e = e
exists-right l (x ∷ xs) ys e = rw (exists-right l xs ys e) (ground arith)

exists-left :
    (l : Level) (xs ys : List PressureScore)
    → exists (is_binding l) xs ≡ true
    → exists (is_binding l) (xs ++ ys) ≡ true
exists-left l [] ys e = cc
exists-left l (x ∷ xs) ys e = ground (arith, exists-left l xs ys)

exists-keep :
    (l : Level) (xs : List PressureScore)
    → exists (is_binding l) xs ≡ exists (reaches l) (keep is_hard xs)
exists-keep l [] = refl
exists-keep l (x ∷ xs) = ground (arith, exists-keep l xs)

-- A hard score that reaches a level makes the pressure reach it.
pub pressure_of-reaches :
    (l : Level) (q : Option FreeTierQuota) (k : Tracker)
    → exists (is_binding l) (scores q k) ≡ true
    → at_least (pressure_of q k).level l ≡ true
unfolding pressure_of
pressure_of-reaches l q k e =
    worst_level-reaches l (keep is_hard (scores q k))
      (All-keep IsProper is_hard (scores q k) (scores-IsProper q k)) (rw (← exists-keep) e)

recent-binds : (n : ℕ) → 0 < n → exists (is_binding pressure_abandon) (recent_score n) ≡ true
recent-binds n h = ground arith

-- While a 429 is remembered the pressure reaches the level at which a provider is abandoned.
pub pressure_of-abandons :
    (q : Option FreeTierQuota) (k : Tracker)
    → 0 < length k.recent_429s
    → at_least (pressure_of q k).level pressure_abandon ≡ true
unfolding scores
pressure_of-abandons q k h = pressure_of-reaches pressure_abandon q k (
    exists-right pressure_abandon (token_score (limit (tokens_per_minute q)) k) _ (
      exists-right pressure_abandon (minute_score (limit (requests_per_minute q)) k) _ (
        exists-right pressure_abandon (daily_score (limit (requests_per_day q)) (is_daily_only q) k)
          (recent_score (length k.recent_429s)) (recent-binds (length k.recent_429s) h))))

-- Nine tenths of the requests of a minute reach the level at which a provider is abandoned.
pub pressure_of-minute :
    (q : FreeTierQuota) (k : Tracker) (n : ℕ)
    → q.requests_per_minute ≡ some n
    → 0 < n
    → 9 * n ≤ 10 * k.minute.requests
    → at_least (pressure_of (some q) k).level pressure_abandon ≡ true
unfolding scores
pressure_of-minute q k n e p h = pressure_of-reaches pressure_abandon (some q) k (
    exists-right pressure_abandon (token_score (limit q.tokens_per_minute) k) _ (
      exists-left pressure_abandon (minute_score (limit q.requests_per_minute) k) _
        (rw (e) (ground arith))))
