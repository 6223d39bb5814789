-- ===== src/Llm/Providers.antt =====
-- src/providers/llm/types.ts and capabilities.ts: the providers, and the table of what each can do.
pub mod Terms
use asad.Base.{
  ℕ, ◌+◌, ◌*◌, ◌/◌, String, Bool, true, false, ◌&&◌, Option, none, some, List, [], ◌∷◌, ltb, ◌==◌,
  if◌then◌else◌, ◌≡◌, refl, ap, sym, ◌∙◌, arith,
}

-- `LlmProviderId`
pub data ProviderId : Type 0 where
  local gemini groq openrouter openai anthropic : ProviderId

abbrev pub provider_ids : List ProviderId
provider_ids = local ∷ gemini ∷ groq ∷ openrouter ∷ openai ∷ anthropic ∷ []

-- `===` of two ids compares their places in the list of ids.
abbrev pub place : ProviderId → ℕ
place local = 0
place gemini = 1
place groq = 2
place openrouter = 3
place openai = 4
place anthropic = 5

abbrev pub same : ProviderId → ProviderId → Bool
same a b = place a == place b

abbrev of_place : ℕ → ProviderId
of_place n =
    if n == 0
    then local
    else if n == 1
    then gemini
    else if n == 2
    then groq
    else if n == 3
    then openrouter
    else if n == 4
    then openai
    else anthropic

of_place-place : (a : ProviderId) → of_place (place a) ≡ a
of_place-place local = refl
of_place-place gemini = refl
of_place-place groq = refl
of_place-place openrouter = refl
of_place-place openai = refl
of_place-place anthropic = refl

-- Ids at the same place are equal.
pub same-to-equal : (a b : ProviderId) → same a b ≡ true → a ≡ b
same-to-equal a b e =
    let p : place a ≡ place b = ground arith in
    sym (of_place-place a) ∙ (ap of_place p ∙ of_place-place b)

pub same_refl : (a : ProviderId) → same a a ≡ true
same_refl a = ground arith

pub data PrivacyPosture : Type 0 where
  no_training may_train_on_it varies in_process : PrivacyPosture

pub record FreeTierQuota : Type 0 where
  pub requests_per_minute : Option ℕ
  pub tokens_per_minute : Option ℕ
  pub requests_per_day : Option ℕ

pub record LlmProviderCapabilities : Type 0 where
  pub id : ProviderId
  pub label : String
  pub structured_output : Bool
  pub streaming : Bool
  pub prompt_caching : Bool
  pub free_tier_possible : Bool
  pub rate_limits_known : Bool
  pub usage_telemetry : Bool
  pub rate_limit_headers : Bool
  pub max_context_tokens : Option ℕ
  pub recommended_live_context_tokens : Option ℕ
  pub free_tier_quota : Option FreeTierQuota
  pub free_tier_privacy : PrivacyPosture
  pub paid_tier_privacy : PrivacyPosture
  pub privacy_note : String
  pub thinking_control : Bool
  pub docs_url : String
  pub verified_at : String

abbrev pub local_capabilities : LlmProviderCapabilities
local_capabilities = record {
  id = local;
  label = "Local interpreter";
  structured_output = true;
  streaming = false;
  prompt_caching = false;
  free_tier_possible = true;
  rate_limits_known = true;
  usage_telemetry = false;
  rate_limit_headers = false;
  max_context_tokens = none;
  recommended_live_context_tokens = none;
  free_tier_quota = none;
  free_tier_privacy = in_process;
  paid_tier_privacy = in_process;
  privacy_note = "Runs in this process. Nothing is sent anywhere.";
  thinking_control = false;
  docs_url = "";
  verified_at = "2026-08-24";
}

abbrev pub gemini_capabilities : LlmProviderCapabilities
gemini_capabilities = record {
  id = gemini;
  label = "Google Gemini";
  structured_output = true;
  streaming = true;
  prompt_caching = true;
  free_tier_possible = true;
  rate_limits_known = true;
  usage_telemetry = true;
  rate_limit_headers = false;
  max_context_tokens = some 1_000_000;
  recommended_live_context_tokens = some 4000;
  free_tier_quota = some (record {
    requests_per_minute = some 15;
    tokens_per_minute = some 250_000;
    requests_per_day = some 1000;
  });
  free_tier_privacy = may_train_on_it;
  paid_tier_privacy = no_training;
  privacy_note =
      "Free tier: prompts and responses may be used to improve Google products, including human review. Paid tier: not used for training.";
  thinking_control = true;
  docs_url = "https://ai.google.dev/gemini-api/docs/rate-limits";
  verified_at = "2026-08-24";
}

abbrev pub groq_capabilities : LlmProviderCapabilities
groq_capabilities = record {
  id = groq;
  label = "Groq";
  structured_output = true;
  streaming = true;
  prompt_caching = false;
  free_tier_possible = true;
  rate_limits_known = true;
  usage_telemetry = true;
  rate_limit_headers = true;
  max_context_tokens = some 131_072;
  recommended_live_context_tokens = some 2200;
  free_tier_quota = some (record {
    requests_per_minute = some 30;
    tokens_per_minute = some 6000;
    requests_per_day = some 14_400;
  });
  free_tier_privacy = no_training;
  paid_tier_privacy = no_training;
  privacy_note =
      "Does not train on inputs or outputs on either tier. Short abuse/reliability logs, with zero-data-retention available in Data Controls.";
  thinking_control = true;
  docs_url = "https://console.groq.com/docs/rate-limits";
  verified_at = "2026-08-24";
}

abbrev pub openrouter_capabilities : LlmProviderCapabilities
openrouter_capabilities = record {
  id = openrouter;
  label = "OpenRouter";
  structured_output = true;
  streaming = true;
  prompt_caching = false;
  free_tier_possible = true;
  rate_limits_known = true;
  usage_telemetry = true;
  rate_limit_headers = true;
  max_context_tokens = some 131_072;
  recommended_live_context_tokens = some 2000;
  free_tier_quota = some (record {
    requests_per_minute = some 20;
    tokens_per_minute = none;
    requests_per_day = some 50;
  });
  free_tier_privacy = varies;
  paid_tier_privacy = varies;
  privacy_note =
      "OpenRouter does not store prompts by default, but forwards them to whichever provider it routes to, whose own policy then applies. Account settings control whether training-capable providers may be used.";
  thinking_control = false;
  docs_url = "https://openrouter.ai/docs/faq";
  verified_at = "2026-09-10";
}

abbrev pub openai_capabilities : LlmProviderCapabilities
openai_capabilities = record {
  id = openai;
  label = "OpenAI";
  structured_output = true;
  streaming = true;
  prompt_caching = true;
  free_tier_possible = false;
  rate_limits_known = true;
  usage_telemetry = true;
  rate_limit_headers = true;
  max_context_tokens = some 128_000;
  recommended_live_context_tokens = some 4000;
  free_tier_quota = none;
  free_tier_privacy = no_training;
  paid_tier_privacy = no_training;
  privacy_note =
      "API data is not used for training by default. Limited abuse-monitoring retention; zero-retention available to eligible accounts.";
  thinking_control = false;
  docs_url = "https://platform.openai.com/docs/guides/rate-limits";
  verified_at = "2026-08-24";
}

abbrev pub anthropic_capabilities : LlmProviderCapabilities
anthropic_capabilities = record {
  id = anthropic;
  label = "Anthropic";
  structured_output = false;
  streaming = true;
  prompt_caching = true;
  free_tier_possible = false;
  rate_limits_known = true;
  usage_telemetry = true;
  rate_limit_headers = true;
  max_context_tokens = some 200_000;
  recommended_live_context_tokens = some 4000;
  free_tier_quota = none;
  free_tier_privacy = no_training;
  paid_tier_privacy = no_training;
  privacy_note =
      "API data is not used for training by default, with a limited abuse-monitoring window.";
  thinking_control = true;
  docs_url = "https://docs.anthropic.com/en/api/rate-limits";
  verified_at = "2026-08-24";
}

-- `PROVIDER_CAPABILITIES[id]`
abbrev pub capabilities_for : ProviderId → LlmProviderCapabilities
capabilities_for local = local_capabilities
capabilities_for gemini = gemini_capabilities
capabilities_for groq = groq_capabilities
capabilities_for openrouter = openrouter_capabilities
capabilities_for openai = openai_capabilities
capabilities_for anthropic = anthropic_capabilities
