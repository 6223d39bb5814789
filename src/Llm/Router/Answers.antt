-- ===== src/Llm/Router/Answers.antt =====
-- src/providers/llm/router.ts: a turn comes to an answer.
use asad.Base.{
  ℕ, ◌-◌, String, ◌≡◌, refl, subst, Bool, false, not, Option, none, some, List, [], ◌∷◌, inl, inr,
  ◌⊎◌, Bool-cases, Option-cases, is_some, keep,
}
use asad.Llm.Providers.{ProviderId, local}
use asad.Llm.Router.{LlmEnv, Router, eligibility, build_chain, is_cloud}
use asad.Llm.Router.Turns.{
  Turn, Walk, RouteResult, RouteRecovery, Completion, answered, LlmResponse, responded, budget_for,
}
use asad.Llm.Router.Complete.{
  settle, visit, walk, ask, recover, call_recovery, floor, start, complete, name_of, finish,
}
use asad.Llm.Router.Keeps.{asked, Settled-cases}

-- Not settled yet, or settled with an answer.
abbrev pub IsOpenOrAnswered : Option Completion → Type 0
IsOpenOrAnswered c = (c ≡ none) ⊎ ((result : RouteResult) × (c ≡ some (answered result)))

-- The caller does not abort while a recovery route answers.
abbrev pub IsPatient : Option RouteRecovery → Type 0
IsPatient none = Unit
IsPatient (some r) = r.answer.aborted ≡ false

module _ (looks_like_network : String → Bool) (env : LlmEnv) (turn : Turn)
    (patient : (id : ProviderId) → (turn.answers id).aborted ≡ false) where
  ask-settles :
      (w : Walk) (id : ProviderId) (budget : ℕ)
      → IsOpenOrAnswered (ask looks_like_network env turn w id budget).1
  unfolding ask finish
  ask-settles w id budget =
      let settled = settle looks_like_network turn.options (name_of id) (turn.answers id).outcome in
      elim (Settled-cases settled) [
        | inl (response, x) ↦ rw (x, ask) (inr (_, refl))
        | inr (error, x) ↦ rw (x, ask, patient id) (inl refl)
      ]

  visit-settles :
      (w : Walk) (id : ProviderId) → IsOpenOrAnswered (visit looks_like_network env turn w id).1
  unfolding visit
  visit-settles w id = elim (Option-cases (eligibility env w.router id w.now).0) [
    | inr (why, e) ↦ rw (e, visit) (inl refl)
    | inl e ↦ elim (Bool-cases (not (is_some (env.providers id).api_key))) [
      | inl k ↦ rw (e, visit, k) (inl refl)
      | inr k ↦ elim (Option-cases (budget_for turn.options (w.now - turn.started_at))) [
        | inl b ↦ rw (e, visit, k, b) (inl refl)
        | inr (budget, b) ↦
            rw (e, visit, k, b) (ask-settles (asked looks_like_network env turn w id) id budget)
      ]
    ]
  ]

  walk-settles :
      (w : Walk) (ids : List ProviderId)
      → IsOpenOrAnswered (walk looks_like_network env turn w ids).1
  unfolding walk
  walk-settles w [] = inl refl
  walk-settles w (id ∷ ids) =
      elim (Bool-cases (is_some (visit looks_like_network env turn w id).1)) [
        | inl e ↦ rw (e, walk) (visit-settles w id)
        | inr e ↦ rw (e, walk) (walk-settles (visit looks_like_network env turn w id).0 ids)
      ]

  recover-settles :
      (w : Walk)
      → IsPatient turn.options.recovery
      → IsOpenOrAnswered (recover looks_like_network env turn w).1
  unfolding recover call_recovery
  recover-settles w p = elim (Option-cases turn.options.recovery) [
    | inl e ↦ rw (e, recover) (inl refl)
    | inr (r, e) ↦ elim (Bool-cases (not r.available)) [
      | inl a ↦ rw (e, recover, a) (inl refl)
      | inr a ↦ elim (Option-cases (budget_for turn.options (w.now - turn.started_at))) [
        | inl b ↦ rw (e, recover, a, b) (inl refl)
        | inr (budget, b) ↦
            let q : r.answer.aborted ≡ false = subst IsPatient e p in
            let settled = settle looks_like_network turn.options r.id r.answer.outcome in
            elim (Settled-cases settled) [
              | inl (response, x) ↦ rw (e, recover, a, b, x, call_recovery) (inr (_, refl))
              | inr (error, x) ↦ rw (e, recover, a, b, x, call_recovery, q) (inl refl)
            ]
      ]
    ]
  ]

  floor-answers :
      (w : Walk) (response : LlmResponse)
      → (turn.answers local).outcome ≡ responded response
      → (result : RouteResult) × ((floor looks_like_network env turn w).1 ≡ answered result)
  unfolding floor
  floor-answers w response l = rw (l, floor) (_, refl)

  -- A turn ends with an answer, whatever the cloud providers do, where the caller aborts at no call,
  -- every call settles, and the local interpreter responds.
  pub complete-answers :
      (r : Router) (response : LlmResponse)
      → IsPatient turn.options.recovery
      → (turn.answers local).outcome ≡ responded response
      → (result : RouteResult) × ((complete looks_like_network env turn r).1 ≡ answered result)
  unfolding complete
  complete-answers r response p l =
      let (chain, first) =
        build_chain env r turn.options.prefer turn.options.routing_key turn.started_at in
      let w = start looks_like_network env turn first in
      let walked = walk looks_like_network env turn w (keep is_cloud chain) in
      elim (walk-settles w (keep is_cloud chain)) [
        | inr (result, e) ↦ (result, rw (e, complete) refl)
        | inl e ↦ elim (recover-settles walked.0 p) [
          | inr (result, d) ↦ (result, rw (e, complete, d) refl)
          | inl d ↦
              rw (e, complete, d)
                (floor-answers (recover looks_like_network env turn walked.0).0 response l)
        ]
      ]
