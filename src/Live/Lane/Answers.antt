-- ===== src/Live/Lane/Answers.antt =====
-- src/features/live/cloud-lane.ts: a turn that nobody aborts comes to an answer.
use asad.Base.{
  ℕ, ◌+◌, ◌≡◌, refl, Bool, true, false, not, ◌&&◌, ◌||◌, Option, none, some, List, [], ◌∷◌, inl,
  inr, ◌⊎◌, Bool-cases, arith, ltb, ◌==◌, if◌then◌else◌,
}
use asad.Live.Lane.{
  waits, World, Lane, Body, Reply, replied, refused, failed, malformed, from_cloud, from_local,
  Answerer, Ending, interpreted, budget_end, local_fallback, on_body, on_reply, fetched, try_once,
  retry, interpret, retry_delays_ms, min_useful_retry_ms, is_last, cloud_bypass_ms, bypassed,
  retryable_interpret_status,
}

abbrev pub IsAnswer : Ending → Type 0
IsAnswer e = (who : Answerer) × (e ≡ interpreted who)

-- No answer yet, or an answer.
abbrev IsOpenOrAnswer : Option Ending → Type 0
IsOpenOrAnswer e = (e ≡ none) ⊎ ((who : Answerer) × (e ≡ some (interpreted who)))

-- A reply that is no abort by the caller: an error may still be anything else.
abbrev pub IsUnaborted : Reply → Type 0
IsUnaborted (replied b) = Unit
IsUnaborted (refused status after) = Unit
IsUnaborted (failed expired aborted abort_error) =
    (aborted ≡ false) × ((abort_error ≡ true) → expired ≡ true)

-- The caller aborts nothing.
pub record IsPatient (w : World) : Type 0 where
  pub replies : (attempt : ℕ) → IsUnaborted (w.exchange attempt).reply
  pub sleeps :
      (attempt : ℕ)
      → ((w.exchange attempt).aborts_wait ≡ false) × ((w.exchange attempt).aborts_delay ≡ false)
  pub falls_back : w.aborted_then ≡ false

choose :
    (c : Bool) (x y : Lane × Option Ending)
    → IsOpenOrAnswer x.1
    → IsOpenOrAnswer y.1
    → IsOpenOrAnswer (if c then x else y).1
choose true x y h k = h
choose false x y h k = k

and_false : (x y : Bool) → y ≡ false → x && y ≡ false
and_false x y e = ground arith

module _ (w : World) (patient : IsPatient w) where
  fallback-IsAnswer : (l : Lane) → IsAnswer (local_fallback w l).1
  unfolding local_fallback
  fallback-IsAnswer l = elim (Bool-cases w.provisional_stands) [
    | inl e ↦ rw (e, local_fallback) (_, refl)
    | inr e ↦ elim (Bool-cases (w.ready l.now && w.translates)) [
      | inl r ↦ rw (e, local_fallback, patient.falls_back, r) (_, refl)
      | inr r ↦ rw (e, local_fallback, patient.falls_back, r) (_, refl)
    ]
  ]

  settled : (l : Lane) → IsOpenOrAnswer (some (local_fallback w l).1)
  settled l = let (who, e) = fallback-IsAnswer l in inr (who, rw (e) refl)

  on_body-IsAnswer : (l : Lane) (b : Body) → IsAnswer (on_body w l b).1
  unfolding on_body
  on_body-IsAnswer l malformed = fallback-IsAnswer l
  on_body-IsAnswer l from_cloud = (_, refl)
  on_body-IsAnswer l (from_local q r) =
      elim (Bool-cases (w.ready l.now && ltb 0 (cloud_bypass_ms none q r))) [
        | inl e ↦ rw (e) (fallback-IsAnswer (bypassed w l (cloud_bypass_ms none q r)))
        | inr e ↦ rw (e) (fallback-IsAnswer l)
      ]

  on_reply-settles :
      (l : Lane) (r : Reply) (last aborts : Bool) (late : ℕ)
      → aborts ≡ false
      → IsUnaborted r
      → IsOpenOrAnswer (on_reply w l r last aborts late).1
  unfolding on_reply
  on_reply-settles l (replied b) last aborts late a u =
      let (who, e) = on_body-IsAnswer l b in inr (who, rw (e) refl)
  on_reply-settles l (refused status after) last aborts late a u =
      let m = bypassed w l (cloud_bypass_ms (some status) false false) in
      choose (status == 429 && w.ready l.now) _ _ (settled m) (
        choose (not (retryable_interpret_status status) || last) _ _ (settled l)
          (rw (and_false (waits w after) aborts a) (inl refl)))
  on_reply-settles l (failed true aborted abort_error) last aborts late a u = rw (u.0) (settled l)
  on_reply-settles l (failed false aborted true) last aborts late a u =
      let expired_too = u.1 refl in cc
  on_reply-settles l (failed false aborted false) last aborts late a u =
      rw (u.0) (choose last _ _ (settled l) (inl refl))

  try_once-settles :
      (l : Lane) (attempt : ℕ) (last : Bool) → IsOpenOrAnswer (try_once w l attempt last).1
  unfolding try_once
  try_once-settles l attempt last =
      on_reply-settles (fetched w l attempt) (w.exchange attempt).reply last
        (w.exchange attempt).aborts_wait (w.exchange attempt).late_wait (patient.sleeps attempt).0
        (patient.replies attempt)

  retry-IsAnswer :
      (l : Lane) (attempt : ℕ) (delays : List ℕ) → IsAnswer (retry w l attempt delays).1
  unfolding retry
  retry-IsAnswer l attempt [] = fallback-IsAnswer l
  retry-IsAnswer l attempt (d ∷ delays) =
      let later : Lane = record l { now = l.now + (d + (w.exchange attempt).late_delay) } in
      let tried = try_once w later attempt (is_last w delays) in
      let late = ltb (budget_end w) (l.now + min_useful_retry_ms) in
      let awake = (patient.sleeps attempt).1 in
      elim (Bool-cases late) [
        | inl e ↦ rw (e, retry) (fallback-IsAnswer l)
        | inr e ↦ elim (try_once-settles later attempt (is_last w delays)) [
          | inl t ↦ rw (e, retry, awake, t) (retry-IsAnswer tried.0 (attempt + 1) delays)
          | inr (who, t) ↦ rw (e, retry, awake, t) (who, refl)
        ]
      ]

  -- A turn that the caller does not abort ends with an answer, whatever the network does.
  pub interpret-IsAnswer : (bypass_until : ℕ) → IsAnswer (interpret w bypass_until).1
  unfolding interpret
  interpret-IsAnswer bypass_until =
      let l : Lane = record { bypass_until = bypass_until; now = w.started_at; sent = [] } in
      let skips = w.ready w.started_at && ltb w.started_at bypass_until in
      elim (Bool-cases skips) [
        | inl e ↦ rw (e, interpret) (fallback-IsAnswer l)
        | inr e ↦ elim (try_once-settles l 0 false) [
          | inl t ↦ rw (e, interpret, t) (retry-IsAnswer (try_once w l 0 false).0 1 retry_delays_ms)
          | inr (who, t) ↦ rw (e, interpret, t) (who, refl)
        ]
      ]
