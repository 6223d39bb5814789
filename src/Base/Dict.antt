-- ===== src/Base/Dict.antt =====
-- A JavaScript `Map` with string keys, as an association list in insertion order: `set` of a key
-- that is there keeps its place, `delete` removes it, and a new key goes to the end.
use Prim.Native.Nat.{◌+◌, ◌≤◌}
use Prim.Native.String.{String}
use mathlib.Core.Path.{◌≡◌, refl}
use mathlib.Core.Logic.{inl, inr}
use mathlib.Core.Bool.{Bool}
use mathlib.Core.Option.{Option, none, some}
use mathlib.Core.List.{List, [], ◌∷◌}
use native.Mathlib.Omega.{arith}
use text.Mathlib.Text.{◌==◌}
use text.Mathlib.TextEquality.{eq_iff}
use asad.Base.Tests.{if◌then◌else◌, Bool-cases}
use asad.Base.Lists.{length, All, keep}

module _ {ℓ} {V : Type ℓ} where
  unfoldable pub get : List (String × V) → String → Option V
  get [] k = none
  get ((j, v) ∷ m) k = if j == k then some v else get m k

  unfoldable pub put : List (String × V) → String → V → List (String × V)
  put [] k v = (k, v) ∷ []
  put ((j, w) ∷ m) k v = if j == k then (j, v) ∷ m else (j, w) ∷ put m k v

  unfoldable pub delete : List (String × V) → String → List (String × V)
  delete [] k = []
  delete ((j, w) ∷ m) k = let rest = delete m k in if j == k then rest else (j, w) ∷ rest

  pub get-put :
      (m : List (String × V)) (k j : String) (v : V)
      → get (put m k v) j ≡ (if k == j then some v else get m j)
  unfolding get put
  get-put [] k j v = refl
  get-put ((i, w) ∷ m) k j v = ground (arith, eq_iff k j, eq_iff i k, eq_iff i j, get-put m k j v)

  pub get-delete :
      (m : List (String × V)) (k j : String)
      → get (delete m k) j ≡ (if k == j then none else get m j)
  unfolding get delete
  get-delete [] k j = ground arith
  get-delete ((i, w) ∷ m) k j = ground (arith, eq_iff k j, eq_iff i k, eq_iff i j, get-delete m k j)

  pub length-delete-le : (m : List (String × V)) (k : String) → length (delete m k) ≤ length m
  unfolding delete
  length-delete-le [] k = omega arith
  length-delete-le ((i, w) ∷ m) k = ground (arith, length-delete-le m k)

  pub length-put-le :
      (m : List (String × V)) (k : String) (v : V) → length (put m k v) ≤ length m + 1
  unfolding put
  length-put-le [] k v = omega arith
  length-put-le ((i, w) ∷ m) k v = ground (arith, length-put-le m k v)

  -- Every key stands once.
  abbrev pub Distinct : List (String × V) → Type ℓ
  Distinct [] = Unit
  Distinct ((k, v) ∷ m) = (get m k ≡ none) × Distinct m

  pub put-Distinct :
      (m : List (String × V)) (k : String) (v : V) → Distinct m → Distinct (put m k v)
  unfolding put get
  put-Distinct [] k v d = (refl, tt)
  put-Distinct ((j, w) ∷ m) k v d =
      ground (arith, put-Distinct m k v d.1, get-put m k j v, eq_iff k j, eq_iff j k)

  pub delete-Distinct : (m : List (String × V)) (k : String) → Distinct m → Distinct (delete m k)
  unfolding delete get
  delete-Distinct [] k d = tt
  delete-Distinct ((j, w) ∷ m) k d = ground (arith, delete-Distinct m k d.1, get-delete m k j)

  pub get-keep-none :
      (p : String × V → Bool) (m : List (String × V)) (k : String)
      → get m k ≡ none
      → get (keep p m) k ≡ none
  unfolding get
  get-keep-none p [] k e = refl
  get-keep-none p ((j, w) ∷ m) k e = ground (arith, get-keep-none p m k)

  pub keep-Distinct :
      (p : String × V → Bool) (m : List (String × V)) → Distinct m → Distinct (keep p m)
  unfolding get
  keep-Distinct p [] d = tt
  keep-Distinct p ((j, w) ∷ m) d = ground (arith, keep-Distinct p m d.1, get-keep-none p m j d.0)

  -- What `get` finds after a filter.
  abbrev pub kept : (String × V → Bool) → String → Option V → Option V
  kept p k none = none
  kept p k (some v) = if p (k, v) then some v else none

  pub get-keep :
      (p : String × V → Bool) (m : List (String × V)) (k : String)
      → Distinct m
      → get (keep p m) k ≡ kept p k (get m k)
  unfolding get
  get-keep p [] k d = refl
  get-keep p ((j, w) ∷ m) k d = elim (Bool-cases (j == k)) [
    | inl e ↦
        let same : j ≡ k = (eq_iff j k).0 e in
        rw (e, same) (ground (arith, get-keep-none p m k (rw (← same) d.0), (eq_iff k k).1 refl))
    | inr e ↦ ground (arith, get-keep p m k d.1)
  ]

  pub All-put {κ} :
      (P : V → Type κ) (m : List (String × V)) (k : String) (v : V)
      → All (λ e. P e.1) m
      → P v
      → All (λ e. P e.1) (put m k v)
  unfolding put
  All-put P [] k v a p = (p, tt)
  All-put P ((j, w) ∷ m) k v a p = ground (arith, All-put P m k v a.1 p)

  pub All-delete {κ} :
      (P : V → Type κ) (m : List (String × V)) (k : String)
      → All (λ e. P e.1) m
      → All (λ e. P e.1) (delete m k)
  unfolding delete
  All-delete P [] k a = tt
  All-delete P ((j, w) ∷ m) k a = ground (arith, All-delete P m k a.1)

  pub get-All {κ} :
      (P : V → Type κ) (m : List (String × V)) (k : String) (v : V)
      → All (λ e. P e.1) m
      → get m k ≡ some v
      → P v
  unfolding get
  get-All P [] k v a e = cc
  get-All P ((j, w) ∷ m) k v a e = elim (Bool-cases (j == k)) [
    | inl h ↦ ground arith
    | inr h ↦ get-All P m k v a.1 (ground arith)
  ]

pub ruleset dict_laws = (get-put, get-delete)
