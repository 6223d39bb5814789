-- ===== src/Limits/Requests/Memory.antt =====
-- src/lib/rate-limit.ts: the memory of the limiter is bounded, and the key just checked is in it.
use asad.Base.{
  ℕ, zero, suc, ◌-◌, ◌≤◌, ◌<◌, String, ◌≡◌, refl, true, none, List, [], ◌∷◌, arith, length,
  length-drop, drop, is_some, eq_iff, ◌++◌, length-append,
}
use asad.Base.Dict.{get, put, delete, Distinct, put-Distinct, delete-Distinct}
use asad.Limits.Requests.{
  Rule, Bucket, Buckets, tracked_keys, evict, fresh, prepared, write_back, check,
}

module _ {V : Type 0} where
  -- A key that is there keeps the size, as it keeps its place.
  pub length-put_some :
      (m : List (String × V)) (k : String) (v : V)
      → is_some (get m k) ≡ true
      → length (put m k v) ≡ length m
  unfolding put get
  length-put_some [] k v e = cc
  length-put_some ((j, w) ∷ m) k v e = ground (arith, length-put_some m k v)

  -- A new key goes to the end.
  pub put-append :
      (m : List (String × V)) (k : String) (v : V) → get m k ≡ none → put m k v ≡ m ++ (k, v) ∷ []
  unfolding put get
  put-append [] k v e = refl
  put-append ((j, w) ∷ m) k v e = ground (arith, put-append m k v)

  get-last :
      (m : List (String × V)) (k : String) (v : V) (n : ℕ)
      → n < length (m ++ (k, v) ∷ [])
      → is_some (get (drop n (m ++ (k, v) ∷ [])) k) ≡ true
  unfolding get
  get-last [] k v zero h = ground (arith, (eq_iff k k).1 refl)
  get-last [] k v (suc n) h = absurd (omega arith)
  get-last ((j, w) ∷ m) k v zero h =
      ground (arith, get-last m k v 0 (omega (arith, length-append m ((k, v) ∷ []))))
  get-last ((j, w) ∷ m) k v (suc n) h = get-last m k v n (omega arith)

  get-drop-none :
      (n : ℕ) (m : List (String × V)) (k : String) → get m k ≡ none → get (drop n m) k ≡ none
  unfolding get
  get-drop-none zero m k e = e
  get-drop-none (suc n) [] k e = e
  get-drop-none (suc n) ((j, w) ∷ m) k e = get-drop-none n m k (ground arith)

  drop-Distinct : (n : ℕ) (m : List (String × V)) → Distinct m → Distinct (drop n m)
  drop-Distinct zero m d = d
  drop-Distinct (suc n) [] d = d
  drop-Distinct (suc n) ((j, w) ∷ m) d = drop-Distinct n m d.1

length-evict-le : (max_keys : ℕ) (m : Buckets) → length (evict max_keys m) ≤ max_keys
unfolding evict
length-evict-le max_keys m = ground (arith, length-drop (length m - max_keys) m)

-- The keys are distinct and no more than the bound.
pub record IsBounded (max_keys : ℕ) (m : Buckets) : Type 0 where
  pub few : tracked_keys m ≤ max_keys
  pub each_once : Distinct m

evict-IsBounded : (max_keys : ℕ) (m : Buckets) → Distinct m → IsBounded max_keys (evict max_keys m)
unfolding evict
evict-IsBounded max_keys m d = record {
  few = length-evict-le max_keys m;
  each_once = ground (arith, drop-Distinct (length m - max_keys) m d);
}

prepared-IsBounded :
    (rule : Rule) (max_keys : ℕ) (m : Buckets) (key : String) (t : ℕ)
    → IsBounded max_keys m
    → IsBounded max_keys (prepared rule max_keys m key t)
unfolding prepared
prepared-IsBounded rule max_keys m key t v =
    let anew =
      evict-IsBounded max_keys (put (delete m key) key (fresh t))
        (put-Distinct (delete m key) key (fresh t) (delete-Distinct m key v.each_once)) in
    ground (arith, anew)

write_back-IsBounded :
    (max_keys : ℕ) (m : Buckets) (key : String) (b : Bucket)
    → IsBounded max_keys m
    → IsBounded max_keys (write_back m key b)
unfolding write_back
write_back-IsBounded max_keys m key b v =
    ground (arith, length-put_some m key b, put-Distinct m key b v.each_once)

-- However many keys an attacker makes up, a check keeps the keys distinct and within the bound.
pub check-IsBounded :
    (rule : Rule) (max_keys : ℕ) (m : Buckets) (key : String) (t : ℕ)
    → IsBounded max_keys m
    → IsBounded max_keys (check rule max_keys m key t).1
unfolding check
check-IsBounded rule max_keys m key t v =
    write_back-IsBounded max_keys (prepared rule max_keys m key t) key _
      (prepared-IsBounded rule max_keys m key t v)
