-- ===== src/Limits/Requests/Budget.antt =====
-- src/lib/rate-limit.ts: what a limiter lets through over a sequence of checks.
use asad.Base.{
  ℕ, ◌+◌, ◌-◌, ◌*◌, ◌≤◌, ◌<◌, min, String, ◌≡◌, refl, inl, inr, true, false, ◌&&◌, none, some, List,
  [], ◌∷◌, arith, All, length, leb, if◌then◌else◌, is_some, Bool-cases, Option-cases, str_eq,
  eq_iff,
}
use asad.Base.Dict.{get, put, delete, get-put, get-delete, length-put-le, length-delete-le}
use asad.Limits.Requests.{
  Rule, Bucket, Buckets, evict, is_stale, fresh, current, prepared, counted, write_back, verdict,
  check,
}
use asad.Limits.Requests.Memory.{IsBounded, check-IsBounded, length-put_some}

module _ (rule : Rule) (max_keys : ℕ) where
  -- How many checks of the key are allowed.
  unfoldable pub allowed_for : String → Buckets → List (String × ℕ) → ℕ
  allowed_for k m [] = 0
  allowed_for k m ((key, t) ∷ h) =
      (if str_eq key k && (check rule max_keys m key t).0.allowed then 1 else 0)
      + allowed_for k (check rule max_keys m key t).1 h

  pub after_checks : Buckets → List (String × ℕ) → Buckets
  after_checks m [] = m
  after_checks m ((key, t) ∷ h) = after_checks (check rule max_keys m key t).1 h

  -- A limiter never tracks more than its bound of keys, whatever is checked and when.
  pub after_checks-IsBounded :
      (m : Buckets) (h : List (String × ℕ))
      → IsBounded max_keys m
      → IsBounded max_keys (after_checks m h)
  unfolding after_checks
  after_checks-IsBounded m [] v = v
  after_checks-IsBounded m ((key, t) ∷ h) v =
      after_checks-IsBounded (check rule max_keys m key t).1 h
        (check-IsBounded rule max_keys m key t v)

  -- With room for one more key nothing is evicted.
  prepared-roomy :
      (m : Buckets) (key : String) (t : ℕ)
      → length m + 1 ≤ max_keys
      → prepared rule max_keys m key t
        ≡ (if is_stale rule (get m key) t then put (delete m key) key (fresh t) else m)
  unfolding prepared evict
  prepared-roomy m key t roomy =
      ground (arith, length-delete-le m key, length-put-le (delete m key) key (fresh t))

  -- The key checked is there, and the others are as they were.
  prepared-get :
      (m : Buckets) (key : String) (t : ℕ) (k : String)
      → length m + 1 ≤ max_keys
      → (is_some (get (prepared rule max_keys m key t) key) ≡ true)
        × (str_eq key k ≡ false → get (prepared rule max_keys m key t) k ≡ get m k)
        × (length (prepared rule max_keys m key t) ≤ length m + 1)
  prepared-get m key t k roomy = rw (prepared-roomy m key t roomy) (
      ground (
        arith,
        (eq_iff key key).1 refl,
        get-put (delete m key) key key (fresh t),
        get-put (delete m key) key k (fresh t),
        get-delete m key k,
        length-delete-le m key,
        length-put-le (delete m key) key (fresh t),
      ))

  write_back-get :
      (m : Buckets) (key : String) (b : Bucket) (k : String)
      → is_some (get m key) ≡ true
      → (get (write_back m key b) k ≡ (if str_eq key k then some b else get m k))
        × (length (write_back m key b) ≡ length m)
  unfolding write_back
  write_back-get m key b k e = ground (arith, get-put m key k b, length-put_some m key b)

  check-get :
      (m : Buckets) (key : String) (t : ℕ) (k : String)
      → length m + 1 ≤ max_keys
      → (get (check rule max_keys m key t).1 k
          ≡ (if str_eq key k then some (counted (current rule (get m key) t)) else get m k))
        × (length (check rule max_keys m key t).1 ≤ length m + 1)
  unfolding check
  check-get m key t k roomy =
      let p = prepared-get m key t k roomy in
      let w =
        write_back-get (prepared rule max_keys m key t) key (counted (current rule (get m key) t)) k
          p.0 in
      ground (arith, p, w)

  -- How many checks of the key there are.
  pub asked : String → List (String × ℕ) → ℕ
  asked k [] = 0
  asked k ((key, t) ∷ h) = (if str_eq key k then 1 else 0) + asked k h

  allowed-check :
      (m : Buckets) (key : String) (t : ℕ)
      → (check rule max_keys m key t).0.allowed
        ≡ leb ((current rule (get m key) t).count + 1) rule.limit
  unfolding check verdict
  allowed-check m key t = refl

  -- From the second check of a window on.
  allowed_for-some :
      (k : String) (m : Buckets) (h : List (String × ℕ)) (b : Bucket)
      → get m k ≡ some b
      → length m + length h ≤ max_keys
      → All (λ e. e.1 < b.started_at + rule.window_ms) h
      → allowed_for k m h ≡ min (rule.limit - b.count) (asked k h)
  unfolding allowed_for asked
  allowed_for-some k m [] b found roomy within = omega arith
  allowed_for-some k m ((key, t) ∷ h) b found roomy within =
      let next = check-get m key t k (omega arith) in
      elim (Bool-cases (str_eq key k)) [
        | inl e ↦
            let same : key ≡ k = (eq_iff key k).0 e in
            let bucket : current rule (get m key) t ≡ b = rw (same, found) (ground arith) in
            let ih =
              allowed_for-some k (check rule max_keys m key t).1 h (counted b)
                (rw (next.0, e, bucket) refl) (omega arith) within.1 in
            rw (e, allowed-check m key t, bucket, ih) (ground arith)
        | inr e ↦
            let ih =
              allowed_for-some k (check rule max_keys m key t).1 h b (rw (next.0, e) found)
                (omega arith) within.1 in
            rw (e, ih) (omega arith)
      ]

  -- A key that has no bucket, checked only within one window, with room for all the keys: exactly
  -- the first `limit` of its checks are allowed, whatever else is checked in between.
  pub allowed_for-budget :
      (k : String) (m : Buckets) (h : List (String × ℕ)) (start : ℕ)
      → get m k ≡ none
      → length m + length h ≤ max_keys
      → All (λ e. (start ≤ e.1) × (e.1 < start + rule.window_ms)) h
      → allowed_for k m h ≡ min rule.limit (asked k h)
  unfolding allowed_for asked
  allowed_for-budget k m [] start missing roomy within = omega arith
  allowed_for-budget k m ((key, t) ∷ h) start missing roomy within =
      let next = check-get m key t k (omega arith) in
      elim (Bool-cases (str_eq key k)) [
        | inl e ↦
            let same : key ≡ k = (eq_iff key k).0 e in
            let bucket : current rule (get m key) t ≡ fresh t = rw (same, missing) refl in
            let ih =
              allowed_for-some k (check rule max_keys m key t).1 h (counted (fresh t))
                (rw (next.0, e, bucket) refl) (omega arith) (weaken h within.1) in
            rw (e, allowed-check m key t, bucket, ih) (ground arith)
        | inr e ↦
            let ih =
              allowed_for-budget k (check rule max_keys m key t).1 h start (rw (next.0, e) missing)
                (omega arith) within.1 in
            rw (e, ih) (omega arith)
      ]
    where
      weaken :
          (h : List (String × ℕ))
          → All (λ e. (start ≤ e.1) × (e.1 < start + rule.window_ms)) h
          → All (λ e. e.1 < t + rule.window_ms) h
      weaken [] a = tt
      weaken (x ∷ h) a = (omega arith, weaken h a.1)

  write_back_self :
      (m : Buckets) (key : String) (b : Bucket)
      → get (write_back m key b) key ≡ (if is_some (get m key) then some b else none)
  unfolding write_back
  write_back_self m key b = elim (Option-cases (get m key)) [
    | inl e ↦ ground (arith, e)
    | inr (old, e) ↦ ground (arith, e, get-put m key key b, (eq_iff key key).1 refl)
  ]

  -- A caller that waits as long as a verdict says is let through, if the limit lets anything
  -- through at all.
  pub retry_after_allows :
      (m : Buckets) (key : String) (t later : ℕ)
      → 0 < rule.limit
      → t + 1_000 * (check rule max_keys m key t).0.retry_after_seconds ≤ later
      → (check rule max_keys (check rule max_keys m key t).1 key later).0.allowed ≡ true
  unfolding check verdict
  retry_after_allows m key t later positive waited = ground (
    arith,
    write_back_self (prepared rule max_keys m key t) key (counted (current rule (get m key) t)),
  )
