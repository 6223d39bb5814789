-- ===== src/Llm/Router/Policy.antt =====
-- src/providers/llm/router.ts: the rules on money and privacy, over any sequence of turns.
use asad.Base.{
  ◌≤◌, length, String, ◌≡◌, subst, sym, Bool, true, false, List, [], ◌∷◌, ◌++◌, inl, inr,
  Bool-cases, arith, All, All-append,
}
use asad.Llm.Providers.{ProviderId, same, same-to-equal}
use asad.Llm.Router.{LlmEnv, Router, new_router, auto_free, strict, candidates, holds}
use asad.Llm.Router.Turns.{Turn, Sent, Label, provider, route}
use asad.Llm.Router.Complete.{complete}
use asad.Llm.Router.Sticky.{IsSticky}
use asad.Llm.Router.Chain.{IsCandidate}
use asad.Base.Dict.{Distinct}
use asad.Llm.Router.Candidates.{
  IsFree, IsFiltered, IsPrivate, IsCloud, candidates-IsFree, candidates-IsPrivate, candidates-Once,
}
use asad.Llm.Router.Sent.{ReachesCandidate, IsProper, complete-IsTurn}

module _ (Q : ProviderId → Type 0) where
  holds-All_elim :
      (id : ProviderId) (ids : List ProviderId) → All Q ids → holds id ids ≡ true → Q id
  holds-All_elim id [] a h = cc
  holds-All_elim id (x ∷ xs) a h = elim (Bool-cases (same id x)) [
    | inl e ↦ subst Q (sym (same-to-equal id x e)) a.0
    | inr e ↦ holds-All_elim id xs a.1 (rw (e) at h)
  ]

module _ (looks_like_network : String → Bool) (env : LlmEnv) where
  -- Turns that follow one another on one router.
  unfoldable pub after_turns : Router → List Turn → Router
  after_turns r [] = r
  after_turns r (t ∷ ts) = after_turns (complete looks_like_network env t r).0.router ts

  unfoldable pub sent_by : Router → List Turn → List Sent
  sent_by r [] = []
  sent_by r (t ∷ ts) =
      let w = (complete looks_like_network env t r).0 in w.sent ++ sent_by w.router ts

  proper-All :
      (t : Turn) (sent : List Sent)
      → All (IsProper env t) sent
      → All (λ s. ReachesCandidate env s.to) sent
  proper-All t [] a = tt
  proper-All t (s ∷ sent) a = (a.0.destination, proper-All t sent a.1)

  after_turns-IsSticky :
      (r : Router) (ts : List Turn)
      → IsSticky (IsCandidate env) r.sticky
      → IsSticky (IsCandidate env) (after_turns r ts).sticky
  unfolding after_turns
  after_turns-IsSticky r [] s = s
  after_turns-IsSticky r (t ∷ ts) s =
      after_turns-IsSticky (complete looks_like_network env t r).0.router ts
        (complete-IsTurn looks_like_network env t r s).sticky

  sent_by-All :
      (r : Router) (ts : List Turn)
      → IsSticky (IsCandidate env) r.sticky
      → All (λ s. ReachesCandidate env s.to) (sent_by r ts)
  unfolding sent_by
  sent_by-All r [] s = tt
  sent_by-All r (t ∷ ts) s =
      let w = (complete looks_like_network env t r).0 in
      let h = complete-IsTurn looks_like_network env t r s in
      All-append (λ x. ReachesCandidate env x.to) w.sent (sent_by w.router ts)
        (proper-All t w.sent h.sent) (sent_by-All w.router ts h.sticky)

  new_router-IsSticky : IsSticky (IsCandidate env) new_router.sticky
  new_router-IsSticky = record { allowed = tt; distinct = tt; bounded = omega arith }

  -- Whether a request goes to a provider that satisfies the predicate, or to the recovery route.
  abbrev pub Goes : (ProviderId → Type 0) → Label → Type 0
  Goes Q (provider id) = Q id
  Goes Q (route name) = Unit

  Goes-All :
      (Q : ProviderId → Type 0) (sent : List Sent)
      → All Q (candidates env)
      → All (λ s. ReachesCandidate env s.to) sent
      → All (λ s. Goes Q s.to) sent
  Goes-All Q [] q a = tt
  Goes-All Q (s ∷ sent) q a = (goes Q s.to q a.0, Goes-All Q sent q a.1)
    where
      goes :
          (Q : ProviderId → Type 0) (l : Label)
          → All Q (candidates env)
          → ReachesCandidate env l
          → Goes Q l
      goes Q (provider id) q c = holds-All_elim Q id (candidates env) q c
      goes Q (route name) q c = tt

  -- In free-first routing without the paid fallback, no sequence of turns sends anything to a
  -- provider that is not on the list of free ones (a recovery route aside).
  pub sent_by-IsFree :
      (ts : List Turn)
      → env.routing_mode ≡ auto_free
      → env.allow_paid_fallback ≡ false
      → All (λ s. Goes IsFree s.to) (sent_by new_router ts)
  sent_by-IsFree ts m p =
      Goes-All IsFree (sent_by new_router ts) (candidates-IsFree env m p)
        (sent_by-All new_router ts new_router-IsSticky)

  -- In strict privacy mode, where routing is `reliable` or free-first without the paid fallback, no
  -- sequence of turns sends anything to a provider that may train on it (a recovery route aside).
  pub sent_by-IsPrivate :
      (ts : List Turn)
      → env.privacy_mode ≡ strict
      → IsFiltered env
      → All (λ s. Goes (IsPrivate env) s.to) (sent_by new_router ts)
  sent_by-IsPrivate ts p f =
      Goes-All (IsPrivate env) (sent_by new_router ts) (candidates-IsPrivate env p f)
        (sent_by-All new_router ts new_router-IsSticky)

  IsCloud-All :
      (m : List (String × ProviderId))
      → All (λ e. IsCandidate env e.1) m
      → All (λ e. IsCloud env e.1) m
  IsCloud-All [] a = tt
  IsCloud-All (e ∷ m) a = (
    holds-All_elim (IsCloud env) e.1 (candidates env) (candidates-Once env).1 a.0,
    IsCloud-All m a.1,
  )

  -- After any turns at most 2000 sessions have a sticky provider, each one, and never the local one.
  pub after_turns-sticky :
      (ts : List Turn)
      → (length (after_turns new_router ts).sticky ≤ 2_000)
        × Distinct (after_turns new_router ts).sticky
        × All (λ e. IsCloud env e.1) (after_turns new_router ts).sticky
  after_turns-sticky ts =
      let h = after_turns-IsSticky new_router ts new_router-IsSticky in
      (h.bounded, h.distinct, IsCloud-All (after_turns new_router ts).sticky h.allowed)
