-- ===== src/Llm/Router/Complete.antt =====
-- src/providers/llm/router.ts: `complete`, one turn through the chain. What the providers, the clock
-- and the caller's signal do is an argument; a call of a provider goes into the list of what was sent.
use asad.Base.{
  ℕ, ◌+◌, ◌-◌, String, Bool, true, false, not, Option, none, some, List, [], ◌∷◌, ◌++◌, ◌==◌,
  if◌then◌else◌, keep, get_or_else, is_some,
}
use Prim.Native.String.{◌++◌ as concat}
use asad.Base.Dict.{get, delete}
use asad.Llm.Breaker.{
  Breaker, FailureKind, malformed_output, unknown, rate_limited, quota_exhausted, record_success,
  record_failure, default_breaker,
}
use asad.Llm.Errors.{LlmError, llm_error, thrown_llm, to_llm_error, fatal}
use asad.Llm.Providers.{ProviderId, local, gemini, groq, openrouter, openai, anthropic, same}
use asad.Llm.Quota.{Tracker, record_request, record_rate_limited, observe}
use asad.Llm.Router.{
  LlmEnv, Router, eligibility, limiter_for, with_limiter, with_breaker, build_chain, is_cloud,
  set_sticky, key_of,
}
use asad.Llm.Router.Turns.{
  LlmResponse, Outcome, RouteRecovery, Options, Turn, Completion, Walk, budget_for, unsuccessful,
  successful, noted, result_of, responded, threw, provider, route, skipped, deadline, failed,
  skip_reason, no_budget_left, message_text, answered, rejected,
}

-- What the messages call a provider.
abbrev pub name_of : ProviderId → String
name_of local = "local"
name_of gemini = "gemini"
name_of groq = "groq"
name_of openrouter = "openrouter"
name_of openai = "openai"
name_of anthropic = "anthropic"

-- What comes of a response: `options.validate` may reject it.
pub data Settled : Type 0 where
  accepted : LlmResponse → Settled
  refused : LlmError → Settled

abbrev valid : Options → LlmResponse → Bool
valid o response = elim o.validate [ none ↦ true | some f ↦ f response ]

-- `response.usage?.totalTokens ?? options.estimatedTokens ?? 0`
abbrev tokens_of : Options → LlmResponse → ℕ
tokens_of o response =
    get_or_else (elim response.usage [ none ↦ none | some u ↦ u.total_tokens ])
      (get_or_else o.estimated_tokens 0)

abbrev after_outcome : Options → ℕ → Outcome → Tracker → Tracker
after_outcome o t (responded response) k =
    record_request (tokens_of o response) t (observe response.rate_limit k)
after_outcome o t (threw error) k = k

-- `kind === "rate_limited" || kind === "quota_exhausted"`
abbrev pub is_limit_kind : FailureKind → Bool
is_limit_kind rate_limited = true
is_limit_kind quota_exhausted = true
is_limit_kind _ = false

module _ (looks_like_network : String → Bool) where
  unfoldable pub settle : Options → String → Outcome → Settled
  settle o name (responded response) =
      if valid o response
      then accepted response
      else refused (
          llm_error (concat name " returned output that failed schema validation.")
            malformed_output)
  settle o name (threw error) = refused (to_llm_error looks_like_network error unknown)

-- What the tracker learns from an answer: a response is counted even where it is refused.
unfoldable pub learn : Options → ℕ → Outcome → Settled → Tracker → Tracker
learn o t outcome settled k = elim settled [
  | accepted _ ↦ after_outcome o t outcome k
  | refused e ↦
      if is_limit_kind e.kind
      then record_rate_limited t (after_outcome o t outcome k)
      else after_outcome o t outcome k
]

-- `setSticky`, and its deletion when the sticky provider fails, for a turn that may have no key
unfoldable pub stick : Option String → ProviderId → Router → Router
unfolding set_sticky
stick none id r = r
stick (some key) id r = set_sticky r key id

abbrev is_at : Option ProviderId → ProviderId → Bool
is_at none id = false
is_at (some j) id = same j id

unfoldable pub unstick : Option String → ProviderId → Router → Router
unstick none id r = r
unstick (some key) id r =
    if is_at (get r.sticky key) id then record r { sticky = delete r.sticky key } else r

unfoldable pub failed_breaker : LlmError → ℕ → Breaker → Breaker
failed_breaker e t b =
    record_failure default_breaker b e.kind e.message
      (record { fatal = fatal e; retry_after_seconds = e.retry_after_seconds }) t

-- The walk once the recovery route has been sent the request and has settled.
unfoldable pub called_recovery : Walk → RouteRecovery → ℕ → Walk
called_recovery w r budget = record w {
  sent = w.sent ++ (record { to = route r.id; at = w.now; budget = budget } ∷ []);
  now = w.now + r.answer.took;
}

module _ (looks_like_network : String → Bool) (env : LlmEnv) (turn : Turn) where
  abbrev options : Options
  options = turn.options

  abbrev model_of : ProviderId → String
  model_of id = (env.providers id).model

  -- The answer is taken: `recordSuccess`, stickiness and the result.
  unfoldable pub finish : Walk → ProviderId → LlmResponse → Walk × Completion
  unfolding stick
  finish w id response =
      let model = get_or_else response.model (model_of id) in
      let b = record_success (w.router.breakers id) in
      let done =
        noted
          (record w { router = stick (key_of options.routing_key) id (with_breaker w.router id b) })
          (successful (provider id) model response.latency_ms) in
      (done, answered (result_of done response id model none false))

  -- The answer is a failure: the circuit, the attempt, stickiness.
  unfoldable pub fail_over : Walk → ProviderId → LlmError → ℕ → Walk
  unfolding unstick failed_breaker
  fail_over w id e started =
      let b = failed_breaker e w.now (w.router.breakers id) in
      noted
        (record w { router = unstick (key_of options.routing_key) id (with_breaker w.router id b) })
        (unsuccessful (provider id) (model_of id) (w.now - started) (failed e.kind)
          (message_text e.message))

  -- The walk once the provider has been sent the request and has settled.
  unfoldable pub called : Walk → ProviderId → ℕ → Settled → Walk
  unfolding learn
  called w id budget settled =
      let t = w.now + (turn.answers id).took in
      let k =
        learn options t (turn.answers id).outcome settled (limiter_for env w.router id w.now) in
      record w {
        router = with_limiter w.router id k;
        sent = w.sent ++ (record { to = provider id; at = w.now; budget = budget } ∷ []);
        now = t;
      }

  unfoldable pub ask : Walk → ProviderId → ℕ → Walk × Option Completion
  unfolding finish fail_over called
  ask w id budget =
      let settled = settle looks_like_network options (name_of id) (turn.answers id).outcome in
      let after = called w id budget settled in
      elim settled [
        | accepted response ↦
            let (done, completion) = finish after id response in (done, some completion)
        | refused e ↦ (
          fail_over after id e w.now,
          if (turn.answers id).aborted then some (rejected (thrown_llm e)) else none,
        )
      ]

  -- One round of the loop: a provider that may not be used is noted, one that has no key is passed,
  -- and one for which no budget is left is noted.
  unfoldable pub visit : Walk → ProviderId → Walk × Option Completion
  unfolding ask
  visit w id =
      let (reason, asked) = eligibility env w.router id w.now in
      let here = record w { router = asked } in
      elim reason [
        | some why ↦ (
          noted here (unsuccessful (provider id) (model_of id) 0 skipped (skip_reason why)),
          none,
        )
        | none ↦
            if not (is_some (env.providers id).api_key)
            then (here, none)
            else elim (budget_for options (w.now - turn.started_at)) [
              | none ↦ (
                noted here (unsuccessful (provider id) (model_of id) 0 deadline no_budget_left),
                none,
              )
              | some budget ↦ ask here id budget
            ]
      ]

  -- The loop over the chain.
  unfoldable pub walk : Walk → List ProviderId → Walk × Option Completion
  unfolding visit
  walk w [] = (w, none)
  walk w (id ∷ ids) =
      let (after, completion) = visit w id in
      let rest = walk after ids in if is_some completion then (after, completion) else rest

  -- The recovery route, when it is available and there is time for it.
  unfoldable pub call_recovery : Walk → RouteRecovery → ℕ → Walk × Option Completion
  call_recovery w route_used budget =
      let after = called_recovery w route_used budget in
      elim (settle looks_like_network options route_used.id route_used.answer.outcome) [
        | accepted response ↦
            let done = noted after (
              successful (route route_used.id) (get_or_else response.model "recovery")
                response.latency_ms) in
            (
              done,
              some (
                  answered (
                    result_of done response local (get_or_else response.model route_used.id)
                      (some route_used.id) true)),
            )
        | refused e ↦ (
          noted after (
              unsuccessful (route route_used.id) "recovery" (after.now - w.now) (failed e.kind)
                (message_text e.message)),
          if route_used.answer.aborted then some (rejected (thrown_llm e)) else none,
        )
      ]

  unfoldable pub recover : Walk → Walk × Option Completion
  unfolding call_recovery
  recover w = elim options.recovery [
    | none ↦ (w, none)
    | some r ↦
        if not r.available then (w, none) else elim (budget_for options (w.now - turn.started_at)) [
          | none ↦ (noted w (unsuccessful (route r.id) "recovery" 0 deadline no_budget_left), none)
          | some budget ↦ call_recovery w r budget
        ]
  ]

  -- `response.latencyMs || this.now() - started`
  abbrev latency_of : LlmResponse → ℕ → ℕ
  latency_of response took = if response.latency_ms == 0 then took else response.latency_ms

  -- The floor: the local interpreter.
  unfoldable pub floor : Walk → Walk × Completion
  floor w =
      let answer = turn.answers local in
      let after = record w { now = w.now + answer.took } in
      elim answer.outcome [
        | responded response ↦
            let model = get_or_else response.model "deterministic" in
            let done =
              noted after (successful (provider local) model (latency_of response answer.took)) in
            (done, answered (result_of done response local model none true))
        | threw error ↦ (after, rejected error)
      ]

  unfoldable pub start : Router → Walk
  start r = record { router = r; attempts = []; sent = []; now = turn.started_at }

  unfoldable pub complete : Router → Walk × Completion
  unfolding walk recover floor start
  complete r =
      let (chain, asked) = build_chain env r options.prefer options.routing_key turn.started_at in
      let (walked, found) = walk (start asked) (keep is_cloud chain) in
      elim found [
        | some completion ↦ (walked, completion)
        | none ↦
            let (recovered, last) = recover walked in
            elim last [ some completion ↦ (recovered, completion) | none ↦ floor recovered ]
      ]
