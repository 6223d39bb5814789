-- ===== src/Llm/Router/Tests.antt =====
-- Tests of the router, and examples of its theorems.
use asad.Base.{
  ℕ, ◌+◌, String, ◌≡◌, refl, Bool, false, none, some, [], ◌∷◌, ◌++◌, ◌-◌, length, inr, arith, ◌||◌,
  if◌then◌else◌, All, ◌≤◌, keep,
}
use asad.Base.Dict.{get, put, delete, Distinct}
use asad.Llm.Breaker.{rate_limited}
use asad.Llm.Errors.{llm_error, thrown_llm}
use asad.Llm.Providers.{ProviderId, local, gemini, groq, same}
use asad.Llm.Router.{
  LlmEnv, Router, new_router, pinned_only, auto_free, strict, standard, candidates, eligibility,
  build_chain, is_outside,
}
use asad.Llm.Router.Turns.{
  Turn, Options, Answer, LlmResponse, responded, threw, RouteResult, answered, Walk, provider,
}
use asad.Llm.Router.Complete.{complete, ask, start, finish}
use asad.Llm.Router.Sent.{complete-in_time, InBudget}
use asad.Llm.Router.Policy.{
  sent_by, sent_by-IsFree, sent_by-IsPrivate, Goes, after_turns, after_turns-sticky,
}
use asad.Llm.Router.Candidates.{IsFree, IsPrivate, IsCloud, Once}
use asad.Llm.Router.Spared.{Spared}
use asad.Llm.Router.Learned.{IsRefusal, limited-Spared}
use asad.Llm.Router.Answers.{complete-answers}
use asad.Llm.Router.Once.{complete-Once, providers_of}
use asad.Llm.Router.Affinity.{finish-front}

abbrev no_network : String → Bool
no_network text = false

-- Gemini and Groq have keys; free-first routing, strict privacy.
abbrev test_env : LlmEnv
test_env = record {
  routing_mode = auto_free;
  privacy_mode = strict;
  allow_paid_fallback = false;
  paid_tier = λ id. false;
  pinned = none;
  providers = λ id. record {
    api_key = if same id gemini || same id groq then some "key" else none;
    model = "model";
    configured = same id local || (same id gemini || same id groq);
  };
  openrouter_denies_collection = false;
}

abbrev reply : LlmResponse
reply = record { text = "{}"; usage = none; rate_limit = none; model = none; latency_ms = 5 }

abbrev test_options : Options
test_options = record {
  deadline_ms = 3_500;
  validate = none;
  estimated_tokens = some 850;
  prefer = none;
  routing_key = some "session";
  turn_deadline_ms = some 5_000;
  min_attempt_ms = none;
  recovery = none;
}

-- Groq answers with a 429 after a second, and all others respond.
abbrev limited_answer : ProviderId → Answer
limited_answer id = record {
  took = if same id local then 5 else 1_000;
  outcome =
      if same id groq
      then threw (thrown_llm (llm_error "too fast" rate_limited))
      else responded reply;
  aborted = false;
}

abbrev limited_turn : ℕ → Turn
limited_turn t = record { started_at = t; options = test_options; answers = limited_answer }

abbrev good_turn : ℕ → Turn
good_turn t = record {
  started_at = t;
  options = test_options;
  answers = λ id. record { took = 400; outcome = responded reply; aborted = false };
}

-- Strict privacy leaves out Gemini's free tier.
candidates_test : candidates test_env ≡ groq ∷ []
unfolding candidates
candidates_test = refl

sent_test :
    providers_of (sent_by no_network test_env new_router (good_turn 1_000 ∷ good_turn 9_000 ∷ []))
    ≡ groq ∷ groq ∷ []
unfolding sent_by complete build_chain get asad.Llm.Breaker.can_attempt asad.Llm.Quota.pressure
    asad.Llm.Router.Turns.budget_for asad.Llm.Router.Complete.settle put delete
    asad.Llm.Breaker.record_success asad.Llm.Quota.record_request asad.Llm.Quota.observe
sent_test = refl

-- After a 429 the second turn goes to nobody.
limited_test :
    providers_of
      (sent_by no_network test_env new_router (limited_turn 1_000 ∷ good_turn 9_000 ∷ []))
    ≡ groq ∷ []
unfolding sent_by complete build_chain get asad.Llm.Breaker.can_attempt asad.Llm.Quota.pressure
    asad.Llm.Router.Turns.budget_for asad.Llm.Router.Complete.settle asad.Llm.Breaker.record_failure
    asad.Llm.Errors.to_llm_error asad.Llm.Quota.record_rate_limited
limited_test = refl

sent_by-IsFree_example :
    All
      (λ s. Goes no_network test_env IsFree s.to)
      (sent_by no_network test_env new_router (limited_turn 1_000 ∷ good_turn 9_000 ∷ []))
sent_by-IsFree_example =
    sent_by-IsFree no_network test_env (limited_turn 1_000 ∷ good_turn 9_000 ∷ []) refl refl

sent_by-IsPrivate_example :
    All
      (λ s. Goes no_network test_env (IsPrivate test_env) s.to)
      (sent_by no_network test_env new_router (limited_turn 1_000 ∷ good_turn 9_000 ∷ []))
sent_by-IsPrivate_example =
    sent_by-IsPrivate no_network test_env (limited_turn 1_000 ∷ good_turn 9_000 ∷ []) refl
      (inr (refl, refl))

after_turns-sticky_example :
    (length (after_turns no_network test_env new_router (good_turn 1_000 ∷ [])).sticky ≤ 2_000)
    × Distinct (after_turns no_network test_env new_router (good_turn 1_000 ∷ [])).sticky
    × All
        (λ e. IsCloud test_env e.1)
        (after_turns no_network test_env new_router (good_turn 1_000 ∷ [])).sticky
after_turns-sticky_example = after_turns-sticky no_network test_env (good_turn 1_000 ∷ [])

complete-in_time_example :
    All
      (λ s. InBudget test_options (s.at - 1_000) s.budget)
      (complete no_network test_env (limited_turn 1_000) new_router).0.sent
complete-in_time_example =
    complete-in_time no_network test_env (limited_turn 1_000) new_router
      (record { allowed = tt; distinct = tt; bounded = omega arith })

complete-Once_example :
    Once (providers_of (complete no_network test_env (limited_turn 1_000) new_router).0.sent)
complete-Once_example = complete-Once no_network test_env (limited_turn 1_000) new_router

complete-answers_example :
    (result : RouteResult) × ((complete no_network test_env (limited_turn 1_000) new_router).1
      ≡ answered result)
complete-answers_example =
    complete-answers no_network test_env (limited_turn 1_000) (λ id. refl) new_router reply tt refl

limited_turn-IsRefusal : IsRefusal no_network test_env (limited_turn 1_000) groq
unfolding asad.Llm.Router.Complete.settle asad.Llm.Errors.to_llm_error
limited_turn-IsRefusal = record {
  error = llm_error "too fast" rate_limited;
  settles = refl;
  limits = refl;
}

limited_sent :
    (complete no_network test_env (limited_turn 1_000) new_router).0.sent
    ≡ record { to = provider groq; at = 1_000; budget = 3_500 } ∷ []
unfolding complete build_chain get asad.Llm.Breaker.can_attempt asad.Llm.Quota.pressure
    asad.Llm.Router.Turns.budget_for asad.Llm.Router.Complete.settle
limited_sent = refl

limited_ends : (complete no_network test_env (limited_turn 1_000) new_router).0.now ≡ 2_005
unfolding complete build_chain get asad.Llm.Breaker.can_attempt asad.Llm.Quota.pressure
    asad.Llm.Router.Turns.budget_for asad.Llm.Router.Complete.settle
limited_ends = refl

limited-Spared_example : All (Spared (1_000 + 1_000) groq) (
    sent_by no_network test_env
      (complete no_network test_env (limited_turn 1_000) new_router).0.router
      (good_turn 9_000 ∷ []))
limited-Spared_example =
    limited-Spared no_network test_env (limited_turn 1_000) groq new_router (good_turn 9_000 ∷ [])
      [] [] 1_000 3_500 limited_turn-IsRefusal limited_sent (rw limited_ends (omega arith), tt)

groq_eligible :
    (eligibility test_env
      (finish no_network test_env
        (good_turn 1_000)
        (start no_network test_env (good_turn 1_000) new_router)
        groq
        reply).0.router
      groq
      9_000).0
    ≡ none
unfolding finish start eligibility asad.Llm.Breaker.can_attempt asad.Llm.Breaker.record_success
    asad.Llm.Quota.pressure
groq_eligible = refl

finish-front_example :
    (build_chain test_env
      (finish no_network test_env
        (good_turn 1_000)
        (start no_network test_env (good_turn 1_000) new_router)
        groq
        reply).0.router
      none
      (some "session")
      9_000).0
    ≡ groq ∷ (keep (is_outside (groq ∷ [])) (candidates test_env) ++ (local ∷ []))
finish-front_example =
    finish-front no_network test_env (good_turn 1_000)
      (start no_network test_env (good_turn 1_000) new_router) groq reply "session" 9_000 refl
      groq_eligible

-- A pinned provider is not asked for its privacy.
pinned_test :
    candidates (record test_env { routing_mode = pinned_only; pinned = some gemini }) ≡ gemini ∷ []
unfolding candidates
pinned_test = refl
