-- ===== src/Llm/Router/Report.antt =====
-- src/providers/llm/router.ts: what the diagnostics page reads, `health` and `plan`. The texts of
-- the warnings are left out.
use asad.Base.{
  ℕ, String, Bool, true, not, ◌&&◌, Option, none, List, [], ◌∷◌, ◌++◌, if◌then◌else◌, is_some,
}
use asad.Llm.Breaker.{BreakerSnapshot, snapshot as breaker_snapshot}
use asad.Llm.Providers.{ProviderId, local, same, provider_ids, capabilities_for}
use asad.Llm.Providers.Terms.{assess_free_tier_viability, live_tokens_per_call_for_provider}
use asad.Llm.Quota.{TrackerSnapshot, snapshot as tracker_snapshot}
use asad.Llm.Router.{
  LlmEnv, Router, RoutingMode, PrivacyMode, SkipReason, eligibility, limiter_for, quota_of,
  with_limiter, candidates, is_paid, may_train, is_strict, preferred,
}

pub record ProviderHealth : Type 0 where
  pub provider : ProviderId
  pub model : String
  pub configured : Bool
  pub breaker : BreakerSnapshot
  pub rate_limit : TrackerSnapshot
  pub eligible : Bool
  pub ineligible_reason : Option SkipReason

pub data Warning : Type 0 where
  free_tier_not_viable privacy_note : ProviderId → Warning

pub record Plan : Type 0 where
  pub mode : RoutingMode
  pub privacy_mode : PrivacyMode
  pub allow_paid_fallback : Bool
  pub paid_tier : ProviderId → Bool
  pub chain : List ProviderId
  pub active : Option ProviderId
  pub warnings : List Warning

module _ (env : LlmEnv) where
  unfoldable pub health_of : Router → ProviderId → ℕ → ProviderHealth × Router
  unfolding eligibility limiter_for
  health_of r id now =
      let (reason, asked) = eligibility env r id now in
      let (limits, k) = tracker_snapshot (quota_of env id) now (limiter_for env asked id now) in
      (
        record {
          provider = id;
          model = (env.providers id).model;
          configured = (env.providers id).configured;
          breaker = breaker_snapshot (asked.breakers id) now;
          rate_limit = limits;
          eligible = if same id local then true else not (is_some reason);
          ineligible_reason = if same id local then none else reason;
        },
        with_limiter asked id k,
      )

  unfoldable pub health_from : Router → List ProviderId → ℕ → List ProviderHealth × Router
  unfolding health_of
  health_from r [] now = ([], r)
  health_from r (id ∷ ids) now =
      let (h, asked) = health_of r id now in
      let (rest, last) = health_from asked ids now in (h ∷ rest, last)

  unfoldable pub health : Router → ℕ → List ProviderHealth × Router
  unfolding health_from
  health r now = health_from r provider_ids now

  abbrev warnings_of : ProviderId → List Warning
  warnings_of id =
      (if (capabilities_for id).free_tier_possible
          && (not (is_paid env id)
              && not (assess_free_tier_viability id (live_tokens_per_call_for_provider id)).viable)
        then free_tier_not_viable id ∷ []
        else [])
      ++ (if may_train env id && not (is_strict env.privacy_mode) then privacy_note id ∷ [] else [])

  unfoldable pub warnings_for : List ProviderId → List Warning
  warnings_for [] = []
  warnings_for (id ∷ ids) = warnings_of id ++ warnings_for ids

  unfoldable pub plan : Router → ℕ → Plan × Router
  unfolding warnings_for candidates preferred
  plan r now =
      let (active, asked) = preferred env r none none now in
      (
        record {
          mode = env.routing_mode;
          privacy_mode = env.privacy_mode;
          allow_paid_fallback = env.allow_paid_fallback;
          paid_tier = env.paid_tier;
          chain = candidates env ++ (local ∷ []);
          active = active;
          warnings = warnings_for (candidates env);
        },
        asked,
      )
