-- ===== src/Llm/Router/Candidates.antt =====
-- src/providers/llm/router.ts: which providers `candidates` lets through in each mode.
use asad.Base.{
  ◌≡◌, refl, subst, sym, Bool, true, false, not, ◌&&◌, List, [], ◌∷◌, ◌++◌, inl, inr, ◌⊎◌,
  Bool-cases, Option-cases, arith, All, All-append, All-keep, keep,
}
use asad.Llm.Providers.{ProviderId, same, same_refl, same-to-equal, gemini, groq, openrouter}
use asad.Llm.Router.{
  LlmEnv, RoutingMode, local_only, auto_free, pinned_only, reliable, strict, candidates,
  candidates_in, paid_fallback, may_train, privacy_ok, is_configured, free_providers,
  paid_providers, holds, pinned_cloud, first_of_each, is_cloud, is_strict,
}

keep-All {ℓ} : {A : Type ℓ} (p : A → Bool) (xs : List A) → All (λ x. p x ≡ true) (keep p xs)
keep-All p [] = tt
keep-All p (x ∷ xs) = ground (arith, keep-All p xs)

-- The list has no provider twice.
abbrev pub Once : List ProviderId → Type 0
Once [] = Unit
Once (x ∷ xs) = (holds x xs ≡ false) × Once xs

pub holds-keep :
    (p : ProviderId → Bool) (id : ProviderId) (xs : List ProviderId)
    → holds id xs ≡ false
    → holds id (keep p xs) ≡ false
holds-keep p id [] h = refl
holds-keep p id (x ∷ xs) h = ground (arith, holds-keep p id xs)

pub keep-Once : (p : ProviderId → Bool) (xs : List ProviderId) → Once xs → Once (keep p xs)
keep-Once p [] h = tt
keep-Once p (x ∷ xs) h = ground (arith, holds-keep p x xs h.0, keep-Once p xs h.1)

abbrev pub IsFree : ProviderId → Type 0
IsFree id = holds id free_providers ≡ true

IsFree-All : (p : ProviderId → Bool) → All IsFree (keep p free_providers)
IsFree-All p = All-keep IsFree p free_providers (refl, (refl, (refl, tt)))

-- The modes in which every candidate has to pass the privacy filter.
abbrev pub IsFiltered : LlmEnv → Type 0
IsFiltered env =
    (env.routing_mode ≡ reliable)
    ⊎ ((env.routing_mode ≡ auto_free) × (env.allow_paid_fallback ≡ false))

module _ (env : LlmEnv) where
  auto_free-All :
      (Q : ProviderId → Type 0)
      → env.routing_mode ≡ auto_free
      → env.allow_paid_fallback ≡ false
      → All Q (keep (privacy_ok env) (keep (is_configured env) free_providers))
      → All Q (candidates env)
  unfolding candidates candidates_in paid_fallback
  auto_free-All Q m p a =
      subst (λ mode. All Q (candidates_in env mode)) (sym m)
        (All-append Q (keep (privacy_ok env) (keep (is_configured env) free_providers))
          (paid_fallback env env.allow_paid_fallback) a
          (subst (λ b. All Q (paid_fallback env b)) (sym p) tt))

  pub candidates-IsFree :
      env.routing_mode ≡ auto_free → env.allow_paid_fallback ≡ false → All IsFree (candidates env)
  candidates-IsFree m p = auto_free-All IsFree m p (
      All-keep IsFree (privacy_ok env) (keep (is_configured env) free_providers)
        (IsFree-All (is_configured env)))

  abbrev pub IsPrivate : ProviderId → Type 0
  IsPrivate id = may_train env id ≡ false

  ok-IsPrivate :
      (id : ProviderId) → env.privacy_mode ≡ strict → privacy_ok env id ≡ true → IsPrivate id
  unfolding privacy_ok
  ok-IsPrivate id s e =
      let h : not (is_strict strict && may_train env id) ≡ true =
        subst (λ m. not (is_strict m && may_train env id) ≡ true) s e in
      ground arith

  privacy_ok-IsPrivate :
      (xs : List ProviderId) → env.privacy_mode ≡ strict → All IsPrivate (keep (privacy_ok env) xs)
  privacy_ok-IsPrivate [] s = tt
  privacy_ok-IsPrivate (x ∷ xs) s = elim (Bool-cases (privacy_ok env x)) [
    | inl e ↦ rw (e) (ok-IsPrivate x s e, privacy_ok-IsPrivate xs s)
    | inr e ↦ rw (e) (privacy_ok-IsPrivate xs s)
  ]

  pub candidates-IsPrivate :
      env.privacy_mode ≡ strict → IsFiltered env → All IsPrivate (candidates env)
  unfolding candidates candidates_in
  candidates-IsPrivate s (inl m) =
      subst (λ mode. All IsPrivate (candidates_in env mode)) (sym m) (privacy_ok-IsPrivate _ s)
  candidates-IsPrivate s (inr (m, p)) =
      auto_free-All IsPrivate m p (privacy_ok-IsPrivate (keep (is_configured env) free_providers) s)

  abbrev pub IsCloud : ProviderId → Type 0
  IsCloud id = is_cloud id ≡ true

  -- The pinned provider alone, if it is a cloud one, is all cloud and stands once.
  pinned_cloud-IsCloud : All IsCloud (pinned_cloud env) × Once (pinned_cloud env)
  unfolding pinned_cloud
  pinned_cloud-IsCloud = elim (Option-cases env.pinned) [
    | inl e ↦ rw (e, pinned_cloud) (tt, tt)
    | inr (id, e) ↦ rw (e, pinned_cloud) (ground arith)
  ]

  first_of_each-All :
      (Q : ProviderId → Type 0) (seen ids : List ProviderId)
      → All Q ids
      → All Q (first_of_each seen ids)
  unfolding first_of_each
  first_of_each-All Q seen [] a = tt
  first_of_each-All Q seen (x ∷ xs) a = ground (arith, first_of_each-All Q (x ∷ seen) xs a.1)

  first_of_each-new :
      (id : ProviderId) (seen ids : List ProviderId)
      → holds id seen ≡ true
      → holds id (first_of_each seen ids) ≡ false
  unfolding first_of_each
  first_of_each-new id seen [] h = refl
  first_of_each-new id seen (x ∷ xs) h =
      let weaker : holds id (x ∷ seen) ≡ true = ground arith in
      let next = first_of_each-new id (x ∷ seen) xs weaker in
      elim (Bool-cases (holds x seen)) [
        | inl e ↦ rw (e) next
        | inr e ↦ elim (Bool-cases (same id x)) [
          | inl q ↦ let p = subst (λ y. holds y seen ≡ true) (same-to-equal id x q) h in cc
          | inr q ↦ rw (e, q) next
        ]
      ]

  first_of_each-Once : (seen ids : List ProviderId) → Once (first_of_each seen ids)
  unfolding first_of_each
  first_of_each-Once seen [] = tt
  first_of_each-Once seen (x ∷ xs) =
      ground
        (arith, first_of_each-Once (x ∷ seen) xs, first_of_each-new x (x ∷ seen) xs, same_refl x)

  holds-append :
      (id : ProviderId) (xs ys : List ProviderId)
      → holds id xs ≡ false
      → holds id ys ≡ false
      → holds id (xs ++ ys) ≡ false
  holds-append id [] ys h k = k
  holds-append id (x ∷ xs) ys h k = ground (arith, holds-append id xs ys)

  pub append-Once :
      (xs ys : List ProviderId)
      → Once xs
      → Once ys
      → All (λ x. holds x ys ≡ false) xs
      → Once (xs ++ ys)
  append-Once [] ys h k a = k
  append-Once (x ∷ xs) ys h k a = (holds-append x xs ys h.0 a.0, append-Once xs ys h.1 k a.1)

  paid_fallback-disjoint :
      (id : ProviderId) (allowed : Bool)
      → holds id paid_providers ≡ false
      → holds id (paid_fallback env allowed) ≡ false
  unfolding paid_fallback
  paid_fallback-disjoint id true h = holds-keep (is_configured env) id paid_providers h
  paid_fallback-disjoint id false h = refl

  paid_fallback-Once :
      (allowed : Bool) → Once (paid_fallback env allowed) × All IsCloud (paid_fallback env allowed)
  unfolding paid_fallback
  paid_fallback-Once true = (
    keep-Once (is_configured env) paid_providers (refl, (refl, tt)),
    All-keep IsCloud (is_configured env) paid_providers (refl, (refl, tt)),
  )
  paid_fallback-Once false = (tt, tt)

  pub candidates_in-Once :
      (m : RoutingMode) → Once (candidates_in env m) × All IsCloud (candidates_in env m)
  unfolding candidates_in paid_fallback
  candidates_in-Once local_only = (tt, tt)
  candidates_in-Once pinned_only = (
    keep-Once (is_configured env) (pinned_cloud env) pinned_cloud-IsCloud.1,
    All-keep IsCloud (is_configured env) (pinned_cloud env) pinned_cloud-IsCloud.0,
  )
  candidates_in-Once reliable =
      let ids = pinned_cloud env ++ (paid_providers ++ free_providers) in
      let cloud =
        All-append IsCloud (pinned_cloud env) (paid_providers ++ free_providers)
          pinned_cloud-IsCloud.0 (refl, (refl, (refl, (refl, (refl, tt))))) in
      (
        keep-Once (privacy_ok env) _ (keep-Once (is_configured env) _ (first_of_each-Once [] ids)),
        All-keep IsCloud (privacy_ok env) _
            (All-keep IsCloud (is_configured env) _ (first_of_each-All IsCloud [] ids cloud)),
      )
  candidates_in-Once auto_free =
      let configured = keep (is_configured env) free_providers in
      let free = keep (privacy_ok env) configured in
      let paid = paid_fallback env env.allow_paid_fallback in
      let apart : All (λ id. holds id paid ≡ false) free_providers = (
        paid_fallback-disjoint gemini env.allow_paid_fallback refl,
        (
          paid_fallback-disjoint groq env.allow_paid_fallback refl,
          (paid_fallback-disjoint openrouter env.allow_paid_fallback refl, tt),
        ),
      ) in
      (
        append-Once free paid
            (keep-Once (privacy_ok env) configured
              (keep-Once (is_configured env) free_providers (refl, (refl, (refl, tt)))))
            (paid_fallback-Once env.allow_paid_fallback).0
            (All-keep (λ id. holds id paid ≡ false) (privacy_ok env) configured
              (All-keep (λ id. holds id paid ≡ false) (is_configured env) free_providers apart)),
        All-append IsCloud free paid
            (All-keep IsCloud (privacy_ok env) configured
              (All-keep IsCloud (is_configured env) free_providers (refl, (refl, (refl, tt)))))
            (paid_fallback-Once env.allow_paid_fallback).1,
      )

  pub candidates-Once : Once (candidates env) × All IsCloud (candidates env)
  unfolding candidates
  candidates-Once = candidates_in-Once env.routing_mode
