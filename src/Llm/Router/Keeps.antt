-- ===== src/Llm/Router/Keeps.antt =====
-- src/providers/llm/router.ts: what a whole turn keeps, from what each of its steps keeps.
use asad.Base.{
  ℕ, ◌+◌, ◌-◌, String, ◌≡◌, refl, Bool, not, none, some, List, [], ◌∷◌, inl, inr, Bool-cases,
  Option-cases, All, keep, is_some, ◌⊎◌,
}
use asad.Llm.Errors.{LlmError, Thrown}
use asad.Llm.Providers.{ProviderId, local}
use asad.Llm.Router.{LlmEnv, Router, eligibility, build_chain, is_cloud}
use asad.Llm.Router.Turns.{
  Turn, Walk, RouteAttempt, LlmResponse, RouteRecovery, budget_for, noted, Outcome, responded,
  threw,
}
use asad.Llm.Router.Complete.{
  Settled, accepted, refused, settle, visit, walk, ask, finish, fail_over, called, recover,
  call_recovery, called_recovery, floor, start, complete, name_of,
}

pub Settled-cases :
    (s : Settled) → ((r : LlmResponse) × (s ≡ accepted r)) ⊎ ((e : LlmError) × (s ≡ refused e))
Settled-cases (accepted r) = inl (r, refl)
Settled-cases (refused e) = inr (e, refl)

pub Outcome-cases :
    (o : Outcome) → ((r : LlmResponse) × (o ≡ responded r)) ⊎ ((e : Thrown) × (o ≡ threw e))
Outcome-cases (responded r) = inl (r, refl)
Outcome-cases (threw e) = inr (e, refl)

module _ (looks_like_network : String → Bool) (env : LlmEnv) (turn : Turn) where
  -- A walk after the question whether the provider may be used.
  abbrev pub asked : Walk → ProviderId → Walk
  asked w id = record w { router = (eligibility env w.router id w.now).1 }

  -- What the steps of a turn keep, for the providers that satisfy `P`.
  pub record Keeps {κ} (P : ProviderId → Type 0) (I : Walk → Type κ) : Type κ where
    pub notes : (w : Walk) (a : RouteAttempt) → I w → I (noted w a)
    pub asks : (w : Walk) (id : ProviderId) → P id → I w → I (asked w id)
    pub calls :
        (w : Walk) (id : ProviderId) (budget : ℕ) (s : Settled)
        → P id
        → (eligibility env w.router id w.now).0 ≡ none
        → budget_for turn.options (w.now - turn.started_at) ≡ some budget
        → s ≡ settle looks_like_network turn.options (name_of id) (turn.answers id).outcome
        → I w
        → I (called looks_like_network env turn (asked w id) id budget s)
    pub finishes :
        (w : Walk) (id : ProviderId) (response : LlmResponse)
        → P id
        → I w
        → I (finish looks_like_network env turn w id response).0
    pub fails :
        (w : Walk) (id : ProviderId) (e : LlmError) (started : ℕ)
        → I w
        → I (fail_over looks_like_network env turn w id e started)
    pub recovers :
        (w : Walk) (r : RouteRecovery) (budget : ℕ)
        → budget_for turn.options (w.now - turn.started_at) ≡ some budget
        → I w
        → I (called_recovery w r budget)
    pub waits : (w : Walk) (took : ℕ) → I w → I (record w { now = w.now + took })

  module _ {κ} {P : ProviderId → Type 0} {I : Walk → Type κ} (keeps : Keeps P I) where
    ask-keeps :
        (w : Walk) (id : ProviderId) (budget : ℕ)
        → P id
        → (eligibility env w.router id w.now).0 ≡ none
        → budget_for turn.options (w.now - turn.started_at) ≡ some budget
        → I w
        → I (ask looks_like_network env turn (asked w id) id budget).0
    unfolding ask
    ask-keeps w id budget p e b i =
        let outcome =
          settle looks_like_network turn.options (name_of id) (turn.answers id).outcome in
        let h = keeps.calls w id budget outcome p e b refl i in
        elim (Settled-cases outcome) [
          | inl (response, x) ↦ rw (x, ask) (keeps.finishes _ id response p h)
          | inr (error, x) ↦ rw (x, ask) (keeps.fails _ id error w.now h)
        ]

    visit-keeps :
        (w : Walk) (id : ProviderId) → P id → I w → I (visit looks_like_network env turn w id).0
    unfolding visit
    visit-keeps w id p i =
        let here = keeps.asks w id p i in
        elim (Option-cases (eligibility env w.router id w.now).0) [
          | inr (why, e) ↦ rw (e, visit) (keeps.notes (asked w id) _ here)
          | inl e ↦ elim (Bool-cases (not (is_some (env.providers id).api_key))) [
            | inl k ↦ rw (e, visit, k) here
            | inr k ↦ elim (Option-cases (budget_for turn.options (w.now - turn.started_at))) [
              | inl b ↦ rw (e, visit, k, b) (keeps.notes (asked w id) _ here)
              | inr (budget, b) ↦ rw (e, visit, k, b) (ask-keeps w id budget p e b i)
            ]
          ]
        ]

    pub walk-keeps :
        (w : Walk) (ids : List ProviderId)
        → All P ids
        → I w
        → I (walk looks_like_network env turn w ids).0
    unfolding walk
    walk-keeps w [] ps i = i
    walk-keeps w (id ∷ ids) ps i =
        let next = visit-keeps w id ps.0 i in
        elim (Bool-cases (is_some (visit looks_like_network env turn w id).1)) [
          | inl e ↦ rw (e, walk) next
          | inr e ↦
              rw (e, walk) (walk-keeps (visit looks_like_network env turn w id).0 ids ps.1 next)
        ]

    call_recovery-keeps :
        (w : Walk) (r : RouteRecovery) (budget : ℕ)
        → budget_for turn.options (w.now - turn.started_at) ≡ some budget
        → I w
        → I (call_recovery looks_like_network env turn w r budget).0
    unfolding call_recovery
    call_recovery-keeps w r budget b i =
        let h = keeps.recovers w r budget b i in
        elim (Settled-cases (settle looks_like_network turn.options r.id r.answer.outcome)) [
          | inl (response, x) ↦ rw (x, call_recovery) (keeps.notes (called_recovery w r budget) _ h)
          | inr (error, x) ↦ rw (x, call_recovery) (keeps.notes (called_recovery w r budget) _ h)
        ]

    floor-keeps : (w : Walk) → I w → I (floor looks_like_network env turn w).0
    unfolding floor
    floor-keeps w i =
        let h = keeps.waits w (turn.answers local).took i in
        elim (Outcome-cases (turn.answers local).outcome) [
          | inl (response, x) ↦ rw (x, floor) (keeps.notes _ _ h)
          | inr (error, x) ↦ rw (x, floor) h
        ]

    recover-keeps : (w : Walk) → I w → I (recover looks_like_network env turn w).0
    unfolding recover
    recover-keeps w i = elim (Option-cases turn.options.recovery) [
      | inl e ↦ rw (e, recover) i
      | inr (r, e) ↦ elim (Bool-cases (not r.available)) [
        | inl a ↦ rw (e, recover, a) i
        | inr a ↦ elim (Option-cases (budget_for turn.options (w.now - turn.started_at))) [
          | inl b ↦ rw (e, recover, a, b) (keeps.notes w _ i)
          | inr (budget, b) ↦ rw (e, recover, a, b) (call_recovery-keeps w r budget b i)
        ]
      ]
    ]

    -- A turn keeps what its steps keep, if its chain is as allowed.
    pub complete-keeps :
        (r : Router)
        → All P (
            keep is_cloud
              (build_chain env r turn.options.prefer turn.options.routing_key turn.started_at).0)
        → I (
            start looks_like_network env turn
              (build_chain env r turn.options.prefer turn.options.routing_key turn.started_at).1)
        → I (complete looks_like_network env turn r).0
    unfolding complete
    complete-keeps r ps i =
        let (chain, first) =
          build_chain env r turn.options.prefer turn.options.routing_key turn.started_at in
        let w = start looks_like_network env turn first in
        let walked = walk looks_like_network env turn w (keep is_cloud chain) in
        let h = walk-keeps w (keep is_cloud chain) ps i in
        let k = recover-keeps walked.0 h in
        elim (Option-cases walked.1) [
          | inr (c, e) ↦ rw (e, complete) h
          | inl e ↦ elim (Option-cases (recover looks_like_network env turn walked.0).1) [
            | inr (c, d) ↦ rw (e, complete, d) k
            | inl d ↦ rw (e, complete, d) (floor-keeps _ k)
          ]
        ]
