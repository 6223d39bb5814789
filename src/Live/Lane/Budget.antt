-- ===== src/Live/Lane/Budget.antt =====
-- src/features/live/cloud-lane.ts: a turn sends three requests at most, each within its budget.
use asad.Base.{
  ℕ, ◌+◌, ◌-◌, ◌≤◌, max, ◌≡◌, refl, sym, subst, Bool, false, ◌&&◌, ◌⊎◌, Option, none, some, List,
  [], ◌∷◌, ◌++◌, inl, inr, Bool-cases, Option-cases, arith, All, All-append, length, length-append,
  ltb,
}
use asad.Live.Lane.{
  World, Lane, Request, Body, Reply, replied, refused, failed, malformed, from_cloud, from_local,
  budget_end, local_fallback, on_body, on_reply, fetched, try_once, retry, interpret,
  retry_delays_ms, min_useful_retry_ms, is_last, cloud_bypass_ms, bypassed, waited,
}

-- A request that has no longer than its turn, or one millisecond once the turn is over, and 300 ms at
-- least but for what a late timer has taken.
abbrev pub IsTimely : World → ℕ → Request → Type 0
IsTimely w late r =
    ((r.at + r.deadline ≤ budget_end w) ⊎ ((budget_end w ≤ r.at) × (r.deadline ≡ 1)))
    × (300 ≤ r.deadline + late)

-- No sleep before a retry takes longer than asked by more than so much.
abbrev pub IsLateBy : World → ℕ → Type 0
IsLateBy w late = (attempt : ℕ) → (w.exchange attempt).late_delay ≤ late

module _ (w : World) where
  pub local_fallback-sent : (l : Lane) → (local_fallback w l).0.sent ≡ l.sent
  unfolding local_fallback
  local_fallback-sent l = ground arith

  on_body-sent : (l : Lane) (b : Body) → (on_body w l b).0.sent ≡ l.sent
  unfolding on_body
  on_body-sent l malformed = local_fallback-sent l
  on_body-sent l from_cloud = refl
  on_body-sent l (from_local q r) =
      ground (
        arith,
        local_fallback-sent l,
        local_fallback-sent (bypassed w l (cloud_bypass_ms none q r)),
      )

  waited-sent : (l : Lane) (after : Option ℕ) (late : ℕ) → (waited w l after late).sent ≡ l.sent
  waited-sent l none late = refl
  waited-sent l (some ms) late = ground arith

  on_reply-sent :
      (l : Lane) (r : Reply) (last aborts : Bool) (late : ℕ)
      → (on_reply w l r last aborts late).0.sent ≡ l.sent
  unfolding on_reply
  on_reply-sent l (replied b) last aborts late = on_body-sent l b
  on_reply-sent l (refused status after) last aborts late = ground (
    arith,
    local_fallback-sent l,
    waited-sent l after late,
    local_fallback-sent (bypassed w l (cloud_bypass_ms (some status) false false)),
  )
  on_reply-sent l (failed e a x) last aborts late = ground (arith, local_fallback-sent l)

  -- What was sent before a request, and the request.
  try_once-sent :
      (l : Lane) (attempt : ℕ) (last : Bool)
      → (try_once w l attempt last).0.sent
        ≡ l.sent ++ (record { at = l.now; deadline = max 1 (budget_end w - l.now) } ∷ [])
  unfolding try_once fetched
  try_once-sent l attempt last =
      on_reply-sent (fetched w l attempt) (w.exchange attempt).reply last
        (w.exchange attempt).aborts_wait (w.exchange attempt).late_wait

module _ (w : World) (late : ℕ) where
  -- So many requests, all of them timely.
  record IsGood (n : ℕ) (l : Lane) : Type 0 where
    timely : All (IsTimely w late) l.sent
    few : length l.sent ≤ n

  sent-IsTimely :
      (l : Lane)
      → l.now + 300 ≤ budget_end w + late
      → IsTimely w late (record { at = l.now; deadline = max 1 (budget_end w - l.now) })
  sent-IsTimely l h = elim (Bool-cases (ltb l.now (budget_end w))) [
    | inl e ↦ (inl (ground arith), ground arith)
    | inr e ↦ (inr (ground arith, ground arith), ground arith)
  ]

  try_once-IsGood :
      (l : Lane) (attempt n : ℕ) (last : Bool)
      → l.now + 300 ≤ budget_end w + late
      → IsGood n l
      → IsGood (n + 1) (try_once w l attempt last).0
  try_once-IsGood l attempt n last h g =
      let r : Request = record { at = l.now; deadline = max 1 (budget_end w - l.now) } in
      let e = try_once-sent w l attempt last in
      record {
        timely =
            subst (All (IsTimely w late)) (sym e)
              (All-append (IsTimely w late) l.sent (r ∷ []) g.timely ((sent-IsTimely l h), tt));
        few =
            subst (λ xs. length xs ≤ n + 1) (sym e)
              (omega (arith, length-append l.sent (r ∷ []), g.few));
      }

  more-IsGood : (m n : ℕ) (l : Lane) → m ≤ n → IsGood m l → IsGood n l
  more-IsGood m n l h g = record { timely = g.timely; few = omega (arith, g.few) }

  fallback-IsGood : (n : ℕ) (l : Lane) → IsGood n l → IsGood n (local_fallback w l).0
  fallback-IsGood n l g =
      let e = local_fallback-sent w l in
      record {
        timely = subst (All (IsTimely w late)) (sym e) g.timely;
        few = subst (λ xs. length xs ≤ n) (sym e) g.few;
      }

  retry-IsGood :
      (l : Lane) (attempt n : ℕ) (delays : List ℕ)
      → IsLateBy w late
      → All (λ d. d ≤ 900) delays
      → IsGood n l
      → IsGood (n + length delays) (retry w l attempt delays).0
  unfolding retry
  retry-IsGood l attempt n [] punctual h g =
      more-IsGood n (n + 0) _ (omega arith) (fallback-IsGood n l g)
  retry-IsGood l attempt n (d ∷ delays) punctual h g =
      let total = n + length (d ∷ delays) in
      let more : n ≤ total = omega arith in
      let later : Lane = record l { now = l.now + (d + (w.exchange attempt).late_delay) } in
      let tried = try_once w later attempt (is_last w delays) in
      elim (Bool-cases (ltb (budget_end w) (l.now + min_useful_retry_ms))) [
        | inl e ↦ rw (e, retry) (more-IsGood n total _ more (fallback-IsGood n l g))
        | inr e ↦ elim (Bool-cases (w.exchange attempt).aborts_delay) [
          | inl a ↦ rw (e, retry, a) (more-IsGood n total l more g)
          | inr a ↦
              let good : IsGood (n + 1) tried.0 =
                try_once-IsGood later attempt n (is_last w delays)
                  (ground (arith, h.0, punctual attempt))
                  (record { timely = g.timely; few = g.few }) in
              elim (Option-cases tried.1) [
                | inr (f, t) ↦
                    rw (e, retry, a, t) (more-IsGood (n + 1) total tried.0 (omega arith) good)
                | inl t ↦
                    rw (e, retry, a, t)
                      (more-IsGood (n + 1 + length delays) total _ (omega arith)
                        (retry-IsGood tried.0 (attempt + 1) (n + 1) delays punctual h.1 good))
              ]
        ]
      ]

  budget_end-late : w.started_at + 300 ≤ budget_end w + late
  budget_end-late = omega arith

  -- A turn sends three requests at most. The deadline of each lies within the turn, or is a millisecond
  -- where a late timer has slept past its end; and where the sleeps before the retries take longer than
  -- asked by no more than `late`, each request has 300 ms at least less that.
  pub interpret-IsTimely :
      (bypass_until : ℕ)
      → IsLateBy w late
      → All (IsTimely w late) (interpret w bypass_until).0.sent
        × (length (interpret w bypass_until).0.sent ≤ 3)
  unfolding interpret
  interpret-IsTimely bypass_until punctual =
      let l : Lane = record { bypass_until = bypass_until; now = w.started_at; sent = [] } in
      let none_sent : IsGood 0 l = record { timely = tt; few = omega arith } in
      let tried = try_once w l 0 false in
      let one : IsGood 1 tried.0 =
        more-IsGood (0 + 1) 1 tried.0 (omega arith)
          (try_once-IsGood l 0 0 false budget_end-late none_sent) in
      let good : IsGood 3 (interpret w bypass_until).0 =
        elim (Bool-cases (w.ready w.started_at && ltb w.started_at bypass_until)) [
          | inl e ↦
              rw (interpret, e) (more-IsGood 0 3 _ (omega arith) (fallback-IsGood 0 l none_sent))
          | inr e ↦ elim (Option-cases tried.1) [
            | inr (f, t) ↦ rw (interpret, e, t) (more-IsGood 1 3 tried.0 (omega arith) one)
            | inl t ↦
                rw (interpret, e, t)
                  (more-IsGood (1 + length retry_delays_ms) 3 _ (omega arith) (
                    retry-IsGood tried.0 1 1 retry_delays_ms punctual
                      (omega arith, (omega arith, tt)) one))
          ]
        ] in
      (good.timely, good.few)
