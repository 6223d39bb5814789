-- ===== src/Llm/Router/Sticky.antt =====
-- src/providers/llm/router.ts: what the sessions' sticky providers can be, and how many there are.
use asad.Base.{
  ℕ, zero, suc, ◌-◌, ◌≤◌, String, ◌≡◌, refl, Option, none, some, List, [], ◌∷◌, arith, All,
  All-drop, length, drop, length-drop, eq_iff,
}
use asad.Base.Dict.{
  get, put, delete, Distinct, put-Distinct, delete-Distinct, All-put, All-delete, length-delete-le,
}
use asad.Llm.Providers.{ProviderId}
use asad.Llm.Router.{LlmEnv, Router, eligibility, front, ProviderFilter, set_sticky, max_sticky}
use asad.Llm.Router.Complete.{stick, unstick}

module _ {ℓ} {V : Type ℓ} where
  get-drop-none :
      (n : ℕ) (m : List (String × V)) (k : String) → get m k ≡ none → get (drop n m) k ≡ none
  unfolding get
  get-drop-none zero m k e = e
  get-drop-none (suc n) [] k e = e
  get-drop-none (suc n) ((j, v) ∷ m) k e = get-drop-none n m k (ground (arith, eq_iff j k))

  drop-Distinct : (n : ℕ) (m : List (String × V)) → Distinct m → Distinct (drop n m)
  drop-Distinct zero m d = d
  drop-Distinct (suc n) [] d = d
  drop-Distinct (suc n) ((j, v) ∷ m) d = drop-Distinct n m d.1

-- Every sticky provider satisfies the predicate, no session has two, and there are at most 2000.
pub record IsSticky (P : ProviderId → Type 0) (m : List (String × ProviderId)) : Type 0 where
  pub allowed : All (λ e. P e.1) m
  pub distinct : Distinct m
  pub bounded : length m ≤ max_sticky

module _ (P : ProviderId → Type 0) where
  pub set_sticky-IsSticky :
      (r : Router) (key : String) (id : ProviderId)
      → P id
      → IsSticky P r.sticky
      → IsSticky P (set_sticky r key id).sticky
  unfolding set_sticky
  set_sticky-IsSticky r key id p s =
      let placed = put (delete r.sticky key) key id in
      let n = length placed - max_sticky in
      record {
        allowed =
            All-drop (λ e. P e.1) n placed
              (All-put P (delete r.sticky key) key id (All-delete P r.sticky key s.allowed) p);
        distinct =
            drop-Distinct n placed
              (put-Distinct (delete r.sticky key) key id (delete-Distinct r.sticky key s.distinct));
        bounded = omega (arith, length-drop n placed);
      }

  pub stick-IsSticky :
      (key : Option String) (id : ProviderId) (r : Router)
      → P id
      → IsSticky P r.sticky
      → IsSticky P (stick key id r).sticky
  unfolding stick
  stick-IsSticky none id r p s = s
  stick-IsSticky (some key) id r p s = set_sticky-IsSticky r key id p s

  pub unstick-IsSticky :
      (key : Option String) (id : ProviderId) (r : Router)
      → IsSticky P r.sticky
      → IsSticky P (unstick key id r).sticky
  unfolding unstick
  unstick-IsSticky none id r s = s
  unstick-IsSticky (some key) id r s =
      let less = length-delete-le r.sticky key in
      let deleted : IsSticky P (delete r.sticky key) = record {
        allowed = All-delete P r.sticky key s.allowed;
        distinct = delete-Distinct r.sticky key s.distinct;
        bounded = omega arith;
      } in
      ground arith

module _ (env : LlmEnv) where
  pub eligibility-sticky :
      (r : Router) (id : ProviderId) (now : ℕ) → (eligibility env r id now).1.sticky ≡ r.sticky
  unfolding eligibility
  eligibility-sticky r id now = ground arith

  pub front-sticky :
      (r : Router) (prefer : Option ProviderFilter) (s : Option ProviderId) (now : ℕ)
      → (front env r prefer s now).1.sticky ≡ r.sticky
  unfolding front
  front-sticky r (some prefer) s now = refl
  front-sticky r none none now = refl
  front-sticky r none (some id) now = eligibility-sticky r id now
