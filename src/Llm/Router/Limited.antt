-- ===== src/Llm/Router/Limited.antt =====
-- src/providers/llm/router.ts and rate-limit.ts: a provider that has answered with a 429 is left
-- alone for five minutes.
use asad.Base.{
  ℕ, ◌+◌, ◌≤◌, ◌<◌, String, ◌≡◌, refl, subst, sym, Bool, true, false, Option, none, some, inl, inr,
  ◌⊎◌, Bool-cases, Option-cases, arith, is_some, ltb,
}
use asad.Llm.Errors.{LlmError}
use asad.Llm.Providers.{ProviderId, same, same-to-equal, same_refl}
use asad.Llm.Quota.{Tracker, pressure, memory_of_429_ms}
use asad.Llm.Quota.Memory.{
  has, Remembers, pressure-Remembers, pressure-abandons, record_rate_limited-Remembers,
}
use asad.Llm.Router.{
  LlmEnv, Router, eligibility, limiter_for, quota_of, front, ProviderFilter, set_sticky,
  with_limiter, set_at,
}
use asad.Llm.Router.Turns.{Turn, Walk}
use asad.Llm.Router.Complete.{
  refused, settle, name_of, is_limit_kind, learn, ask, called, fail_over, stick, unstick,
}

-- Whether a tracker that may not be there remembers a 429 of the time.
abbrev pub remembers_in : ℕ → Option Tracker → Bool
remembers_in t none = false
remembers_in t (some k) = has t k.recent_429s

-- The router remembers a 429 of the provider.
abbrev pub RemembersOf : ℕ → ProviderId → Router → Type 0
RemembersOf t id r = remembers_in t (r.limits id) ≡ true

-- An update at one provider, seen at another.
set_at-Remembers :
    (t : ℕ) (id other : ProviderId) (k : Tracker) (f : ProviderId → Option Tracker)
    → remembers_in t (f id) ≡ true
    → ((other ≡ id) → Remembers t k)
    → remembers_in t (set_at f other (some k) id) ≡ true
set_at-Remembers t id other k f h r = elim (Bool-cases (same other id)) [
  | inl e ↦ rw (e) (r (same-to-equal other id e))
  | inr e ↦ rw (e) h
]

module _ (env : LlmEnv) (t : ℕ) (id : ProviderId) where
  limiter_for-Remembers :
      (r : Router) (now : ℕ) → RemembersOf t id r → Remembers t (limiter_for env r id now)
  unfolding limiter_for
  limiter_for-Remembers r now h = elim (Option-cases (r.limits id)) [
    | inl e ↦ let x : remembers_in t none ≡ true = subst (λ o. remembers_in t o ≡ true) e h in cc
    | inr (k, e) ↦ rw (e) (subst (λ o. remembers_in t o ≡ true) e h)
  ]

  -- What a question leaves of the router.
  eligibility-router :
      (r : Router) (other : ProviderId) (now : ℕ)
      → ((eligibility env r other now).1 ≡ r)
        ⊎ ((eligibility env r other now).1
            ≡ with_limiter r other
                (pressure (quota_of env other) now (limiter_for env r other now)).1)
  unfolding eligibility
  eligibility-router r other now = ground arith

  -- While the 429 is remembered, asking about a provider does not forget it.
  pub eligibility-RemembersOf :
      (r : Router) (other : ProviderId) (now : ℕ)
      → now < t + memory_of_429_ms
      → RemembersOf t id r
      → RemembersOf t id (eligibility env r other now).1
  eligibility-RemembersOf r other now n h = elim (eligibility-router r other now) [
    | inl e ↦ rw (e) h
    | inr e ↦ rw (e) (
        set_at-Remembers t id other _ r.limits h (λ same_id.
          subst (λ x. Remembers t (pressure (quota_of env x) now (limiter_for env r x now)).1)
            (sym same_id)
            (pressure-Remembers t now (limiter_for env r id now) n (limiter_for-Remembers r now h)
              (quota_of env id))))
  ]

  pub eligibility-refuses :
      (r : Router) (now : ℕ)
      → now < t + memory_of_429_ms
      → RemembersOf t id r
      → is_some (eligibility env r id now).0 ≡ true
  unfolding eligibility
  eligibility-refuses r now n h =
      let a =
        pressure-abandons t now (limiter_for env r id now) n (limiter_for-Remembers r now h)
          (quota_of env id) in
      ground arith

pub stick-limits :
    (key : Option String) (id : ProviderId) (r : Router) → (stick key id r).limits ≡ r.limits
unfolding stick set_sticky
stick-limits none id r = refl
stick-limits (some key) id r = refl

pub unstick-limits :
    (key : Option String) (id : ProviderId) (r : Router) → (unstick key id r).limits ≡ r.limits
unfolding unstick
unstick-limits none id r = refl
unstick-limits (some key) id r = ground arith

pub front-RemembersOf :
    (env : LlmEnv) (t : ℕ) (id : ProviderId) (r : Router) (prefer : Option ProviderFilter)
    (s : Option ProviderId) (now : ℕ)
    → RemembersOf t id r
    → RemembersOf t id (front env r prefer s now).1 ⊎ (t + memory_of_429_ms ≤ now)
unfolding front
front-RemembersOf env t id r (some prefer) s now h = inl h
front-RemembersOf env t id r none none now h = inl h
front-RemembersOf env t id r none (some j) now h =
    elim (Bool-cases (ltb now (t + memory_of_429_ms))) [
      | inl e ↦ inl (eligibility-RemembersOf env t id r j now (ground arith) h)
      | inr e ↦ inr (ground arith)
    ]

-- A provider that is asked and answers with a 429, or that its quota is exhausted, is remembered
-- for the time of the answer.
pub ask-RemembersOf :
    (looks_like_network : String → Bool) (env : LlmEnv) (turn : Turn) (w : Walk) (id : ProviderId)
    (budget : ℕ) (e : LlmError)
    → settle looks_like_network turn.options (name_of id) (turn.answers id).outcome ≡ refused e
    → is_limit_kind e.kind ≡ true
    → RemembersOf
        (w.now + (turn.answers id).took)
        id
        (ask looks_like_network env turn w id budget).0.router
unfolding ask fail_over called learn
ask-RemembersOf looks_like_network env turn w id budget e x l =
    rw (x, ask, unstick-limits, same_refl id, x, learn, l) (record_rate_limited-Remembers _ _)
