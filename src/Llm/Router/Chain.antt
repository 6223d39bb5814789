-- ===== src/Llm/Router/Chain.antt =====
-- src/providers/llm/router.ts: the chain of a turn holds candidates of the configuration, and the
-- local interpreter at its end.
use asad.Base.{
  ℕ, String, ◌≡◌, refl, true, Option, none, some, List, [], ◌∷◌, inl, inr, Option-cases, arith, All,
  All-keep, All-append, keep, keep-append,
}
use asad.Base.Dict.{get, get-All}
use asad.Llm.Providers.{ProviderId, same_refl}
use asad.Llm.Router.{
  LlmEnv, Router, front, build_chain, ProviderFilter, holds, candidates, matching, is_cloud,
  is_outside, sticky_of, key_of, matches,
}
use asad.Llm.Router.Sticky.{IsSticky, front-sticky}

holds-weaken :
    (a : ProviderId) (xs ys : List ProviderId)
    → All (λ x. holds x ys ≡ true) xs
    → All (λ x. holds x (a ∷ ys) ≡ true) xs
holds-weaken a [] ys h = tt
holds-weaken a (x ∷ xs) ys h = (ground arith, holds-weaken a xs ys h.1)

pub holds-All : (ids : List ProviderId) → All (λ id. holds id ids ≡ true) ids
holds-All [] = tt
holds-All (x ∷ xs) = (rw (same_refl x) refl, holds-weaken x xs xs (holds-All xs))

-- A candidate of the configuration.
abbrev pub IsCandidate : LlmEnv → ProviderId → Type 0
IsCandidate env id = holds id (candidates env) ≡ true

module _ (env : LlmEnv) where
  -- The provider, if there is one.
  abbrev alone : Option ProviderId → List ProviderId
  alone none = []
  alone (some id) = id ∷ []

  sticky_of-IsCandidate :
      (r : Router) (key : Option String)
      → IsSticky (IsCandidate env) r.sticky
      → All (IsCandidate env) (alone (sticky_of r key))
  unfolding sticky_of
  sticky_of-IsCandidate r none s = tt
  sticky_of-IsCandidate r (some key) s = elim (Option-cases (get r.sticky key)) [
    | inl e ↦ rw (e) tt
    | inr (id, e) ↦ rw (e) (get-All (IsCandidate env) r.sticky key id s.allowed e, tt)
  ]

  front-IsCandidate :
      (r : Router) (prefer : Option ProviderFilter) (s : Option ProviderId) (now : ℕ)
      → All (IsCandidate env) (alone s)
      → All (IsCandidate env) (front env r prefer s now).0
  unfolding front matching
  front-IsCandidate r (some prefer) s now h =
      All-keep (IsCandidate env) (matches env prefer) (candidates env) (holds-All (candidates env))
  front-IsCandidate r none none now h = tt
  front-IsCandidate r none (some id) now h = ground arith

  -- The cloud providers of the chain are candidates.
  pub build_chain-IsCandidate :
      (r : Router) (prefer : Option ProviderFilter) (key : Option String) (now : ℕ)
      → IsSticky (IsCandidate env) r.sticky
      → All (IsCandidate env) (keep is_cloud (build_chain env r prefer key now).0)
  unfolding build_chain
  build_chain-IsCandidate r prefer key now s =
      let C = IsCandidate env in
      let ahead = (front env r prefer (sticky_of r (key_of key)) now).0 in
      let rest = keep (is_outside ahead) (candidates env) in
      let h : All C ahead =
        front-IsCandidate r prefer (sticky_of r (key_of key)) now
          (sticky_of-IsCandidate r (key_of key) s) in
      rw (keep-append is_cloud ahead, keep-append is_cloud rest)
        (All-append C (keep is_cloud ahead) _ (All-keep C is_cloud ahead h) (
          All-append C (keep is_cloud rest) _
            (All-keep C is_cloud rest
              (All-keep C (is_outside ahead) (candidates env) (holds-All (candidates env))))
            tt))

  pub build_chain-sticky :
      (r : Router) (prefer : Option ProviderFilter) (key : Option String) (now : ℕ)
      → (build_chain env r prefer key now).1.sticky ≡ r.sticky
  unfolding build_chain
  build_chain-sticky r prefer key now = front-sticky env r prefer (sticky_of r (key_of key)) now
