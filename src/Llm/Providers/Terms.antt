-- ===== src/Llm/Providers/Terms.antt =====
-- src/providers/llm/capabilities.ts: whether a provider trains on what it is sent, and whether its
-- free tier lasts for a sermon. 11.17 calls a minute are written as 1117 in a hundred minutes; the
-- texts of a verdict are left out.
use asad.Base.{ℕ, ◌+◌, ◌*◌, ◌/◌, Bool, true, false, ◌&&◌, Option, none, some, ltb, if◌then◌else◌}
use asad.Llm.Providers.{
  ProviderId, openrouter, same, PrivacyPosture, may_train_on_it, varies, in_process, FreeTierQuota,
  capabilities_for,
}

-- `MAY_TRAIN`
abbrev pub may_train_set : PrivacyPosture → Bool
may_train_set may_train_on_it = true
may_train_set varies = true
may_train_set _ = false

abbrev pub trains_on_free_tier : ProviderId → Bool
trains_on_free_tier id = may_train_set (capabilities_for id).free_tier_privacy

abbrev pub trains_on_submissions : ProviderId → Bool → Bool → Bool
trains_on_submissions id paid_tier openrouter_denies_collection =
    if same id openrouter && openrouter_denies_collection
    then false
    else may_train_set (
        if paid_tier
        then (capabilities_for id).paid_tier_privacy
        else (capabilities_for id).free_tier_privacy)

-- `LIVE_WORKLOAD`
abbrev pub calls_per_100_minutes : ℕ
calls_per_100_minutes = 1117

abbrev pub tokens_per_call_full : ℕ
tokens_per_call_full = 2718

abbrev pub tokens_per_call_compact : ℕ
tokens_per_call_compact = 2432

abbrev pub tokens_per_call_ultra_compact : ℕ
tokens_per_call_ultra_compact = 850

abbrev pub sermon_minutes : ℕ
sermon_minutes = 45

abbrev pub live_tokens_per_call_for_provider : ProviderId → ℕ
live_tokens_per_call_for_provider id = elim (capabilities_for id).recommended_live_context_tokens [
  | none ↦ tokens_per_call_full
  | some r ↦
      if ltb r tokens_per_call_compact
      then tokens_per_call_ultra_compact
      else if ltb r tokens_per_call_full
      then tokens_per_call_compact
      else tokens_per_call_full
]

-- Which limit of the quota is meant.
pub data Binding : Type 0 where
  rpm tpm rpd : Binding

pub record QuotaVerdict : Type 0 where
  pub viable : Bool
  pub binding_limit : Option Binding
  pub sustained_minutes : Option ℕ

abbrev verdict : Bool → Option Binding → Option ℕ → QuotaVerdict
verdict v b m = record { viable = v; binding_limit = b; sustained_minutes = m }

-- Whether a use, in hundredths of a minute, passes a limit that may be absent.
abbrev passes : ℕ → Option ℕ → Bool
passes used none = false
passes used (some l) = ltb (l * 100) used

-- The daily part: the minutes that the requests of a day last, rounded to the nearest.
abbrev pub assess_daily : Option ℕ → QuotaVerdict
assess_daily none = verdict true none none
assess_daily (some n) =
    let minutes = (n * 200 + calls_per_100_minutes) / (2 * calls_per_100_minutes) in
    if ltb (n * 100) (sermon_minutes * calls_per_100_minutes)
    then verdict false (some rpd) (some minutes)
    else verdict true none (some minutes)

abbrev pub assess_quota : FreeTierQuota → ℕ → QuotaVerdict
assess_quota q tokens_per_call =
    if passes calls_per_100_minutes q.requests_per_minute
    then verdict false (some rpm) none
    else if passes (calls_per_100_minutes * tokens_per_call) q.tokens_per_minute
    then verdict false (some tpm) none
    else assess_daily q.requests_per_day

abbrev is_local_posture : PrivacyPosture → Bool
is_local_posture in_process = true
is_local_posture _ = false

abbrev pub assess_free_tier_viability : ProviderId → ℕ → QuotaVerdict
assess_free_tier_viability id tokens_per_call =
    if is_local_posture (capabilities_for id).free_tier_privacy
    then verdict true none none
    else elim (capabilities_for id).free_tier_quota [
      | none ↦ verdict false none none
      | some q ↦ assess_quota q tokens_per_call
    ]
