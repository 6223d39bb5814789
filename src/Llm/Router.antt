-- ===== src/Llm/Router.antt =====
-- src/providers/llm/router.ts: what the router keeps, which providers it may ask, and in what order.
-- The two maps of the process are functions of the provider: a breaker that is not there yet is a
-- new one, a tracker that is not there yet is created when it is asked for. The cache of instances
-- holds nothing that the configuration does not say.
pub mod Turns
pub mod Complete
pub mod Sticky
pub mod Chain
pub mod Candidates
pub mod Keeps
pub mod Sent
pub mod Policy
pub mod Limited
pub mod Learned
pub mod Spared
pub mod Answers
pub mod Parts
pub mod Once
pub mod Affinity
pub mod Report
mod Tests
use asad.Base.{
  ℕ, ◌+◌, ◌-◌, String, Bool, true, false, not, ◌&&◌, Option, none, some, List, [], ◌∷◌, ◌++◌, leb,
  if◌then◌else◌, keep, exists, get_or_else, length, drop, is_some,
}
use asad.Base.Dict.{get, put, delete}
use asad.Llm.Breaker.{Breaker, initial, can_attempt, FailureKind}
use asad.Llm.Providers.{
  ProviderId, local, gemini, groq, openrouter, openai, anthropic, same, capabilities_for,
  FreeTierQuota,
}
use asad.Llm.Providers.Terms.{trains_on_submissions, Binding}
use asad.Llm.Quota.{Tracker, new_tracker, pressure, pressure_abandon, at_least, Level}

pub data RoutingMode : Type 0 where
  local_only auto_free pinned_only reliable : RoutingMode

pub data PrivacyMode : Type 0 where
  standard strict : PrivacyMode

pub record ProviderConfig : Type 0 where
  pub api_key : Option String
  pub model : String
  pub configured : Bool

-- The part of the configuration that routing reads.
pub record LlmEnv : Type 0 where
  pub routing_mode : RoutingMode
  pub privacy_mode : PrivacyMode
  pub allow_paid_fallback : Bool
  pub paid_tier : ProviderId → Bool
  pub pinned : Option ProviderId
  pub providers : ProviderId → ProviderConfig
  pub openrouter_denies_collection : Bool

abbrev pub free_providers : List ProviderId
free_providers = gemini ∷ groq ∷ openrouter ∷ []

abbrev pub paid_providers : List ProviderId
paid_providers = anthropic ∷ openai ∷ []

-- `includes` of a list of ids
abbrev pub holds : ProviderId → List ProviderId → Bool
holds id ids = exists (same id) ids

abbrev pub ProviderFilter : Type 0
ProviderFilter = ProviderId → String → Bool

-- What the router holds for the process.
pub record Router : Type 0 where
  pub breakers : ProviderId → Breaker
  pub limits : ProviderId → Option Tracker
  pub sticky : List (String × ProviderId)

abbrev pub new_router : Router
new_router = record { breakers = λ id. initial; limits = λ id. none; sticky = [] }

abbrev pub set_at {ℓ} : {A : Type ℓ} → (ProviderId → A) → ProviderId → A → ProviderId → A
set_at f id a j = if same id j then a else f j

-- `eligibility().reason`
pub data SkipReason : Type 0 where
  no_api_key : SkipReason
  disabled circuit_open : Option FailureKind → SkipReason
  quota_nearly_exhausted : Option Binding → SkipReason

abbrev pub is_strict : PrivacyMode → Bool
is_strict strict = true
is_strict standard = false

-- `filter((id, i, all) => all.indexOf(id) === i)`, after the ids already seen
unfoldable pub first_of_each : List ProviderId → List ProviderId → List ProviderId
first_of_each seen [] = []
first_of_each seen (id ∷ ids) =
    let rest = first_of_each (id ∷ seen) ids in if holds id seen then rest else id ∷ rest

abbrev pub with_limiter : Router → ProviderId → Tracker → Router
with_limiter r id k = record r { limits = set_at r.limits id (some k) }

abbrev pub with_breaker : Router → ProviderId → Breaker → Router
with_breaker r id b = record r { breakers = set_at r.breakers id b }

-- The kind of the last failure of a breaker.
abbrev last_kind : Breaker → Option FailureKind
last_kind b = elim b.last_failure [ none ↦ none | some f ↦ some f.kind ]

abbrev breaker_reason : Breaker → SkipReason
breaker_reason b = if b.permanent then disabled (last_kind b) else circuit_open (last_kind b)

-- A key that is absent or empty is no key.
abbrev pub key_of : Option String → Option String
key_of none = none
key_of (some key) = if asad.Base.str_eq key "" then none else some key

unfoldable pub sticky_of : Router → Option String → Option ProviderId
sticky_of r none = none
sticky_of r (some key) = get r.sticky key

abbrev pub is_outside : List ProviderId → ProviderId → Bool
is_outside ids id = not (holds id ids)

abbrev pub is_cloud : ProviderId → Bool
is_cloud id = not (same id local)

abbrev pub max_sticky : ℕ
max_sticky = 2_000

-- The loop deletes from the front as many keys as there are too many.
unfoldable pub set_sticky : Router → String → ProviderId → Router
set_sticky r key id =
    let placed = put (delete r.sticky key) key id in
    record r { sticky = drop (length placed - max_sticky) placed }

abbrev pub reset : Router → Router
reset r = new_router

module _ (env : LlmEnv) where
  abbrev pub is_paid : ProviderId → Bool
  is_paid id = env.paid_tier id

  unfoldable pub may_train : ProviderId → Bool
  may_train id = trains_on_submissions id (is_paid id) env.openrouter_denies_collection

  abbrev pub is_configured : ProviderId → Bool
  is_configured id = (env.providers id).configured

  unfoldable pub privacy_ok : ProviderId → Bool
  unfolding may_train
  privacy_ok id = not (is_strict env.privacy_mode && may_train id)

  -- `pinned && pinned !== "local" ? [pinned] : []`
  unfoldable pub pinned_cloud : List ProviderId
  pinned_cloud = elim env.pinned [ none ↦ [] | some id ↦ if same id local then [] else id ∷ [] ]

  -- Paid providers are reachable from `auto-free` only where that is allowed.
  unfoldable pub paid_fallback : Bool → List ProviderId
  paid_fallback allowed = if allowed then keep is_configured paid_providers else []

  unfoldable pub candidates_in : RoutingMode → List ProviderId
  unfolding first_of_each pinned_cloud privacy_ok paid_fallback
  candidates_in local_only = []
  candidates_in pinned_only = keep is_configured pinned_cloud
  candidates_in reliable =
      keep privacy_ok
        (keep is_configured (first_of_each [] (pinned_cloud ++ (paid_providers ++ free_providers))))
  candidates_in auto_free =
      keep privacy_ok (keep is_configured free_providers) ++ paid_fallback env.allow_paid_fallback

  unfoldable pub candidates : List ProviderId
  unfolding candidates_in
  candidates = candidates_in env.routing_mode

  -- The quota that a provider's tracker is made with.
  abbrev pub quota_of : ProviderId → Option FreeTierQuota
  quota_of id = if is_paid id then none else (capabilities_for id).free_tier_quota

  -- `limiterFor`
  unfoldable pub limiter_for : Router → ProviderId → ℕ → Tracker
  limiter_for r id now = get_or_else (r.limits id) (new_tracker now)

  -- Why the provider may not be used now, if it may not, and the router after the question.
  unfoldable pub eligibility : Router → ProviderId → ℕ → Option SkipReason × Router
  unfolding limiter_for
  eligibility r id now =
      let (p, k) = pressure (quota_of id) now (limiter_for r id now) in
      if not (is_configured id)
      then (some no_api_key, r)
      else if not (can_attempt (r.breakers id) now)
      then (some (breaker_reason (r.breakers id)), r)
      else if at_least p.level pressure_abandon
      then (some (quota_nearly_exhausted p.binding), with_limiter r id k)
      else (none, with_limiter r id k)

  -- `find((id) => this.eligibility(id).ok)`
  unfoldable pub first_eligible : Router → List ProviderId → ℕ → Option ProviderId × Router
  unfolding eligibility
  first_eligible r [] now = (none, r)
  first_eligible r (id ∷ ids) now =
      let (reason, asked) = eligibility r id now in
      let rest = first_eligible asked ids now in if is_some reason then rest else (some id, asked)

  abbrev pub matches : ProviderFilter → ProviderId → Bool
  matches prefer id = prefer id (env.providers id).model

  unfoldable pub matching : ProviderFilter → List ProviderId
  unfolding candidates
  matching prefer = keep (matches prefer) candidates

  -- `preferred`, once the sticky provider is known
  abbrev preferred_of : Router → Option ProviderId → ℕ → Option ProviderId × Router
  preferred_of r none now = first_eligible r candidates now
  preferred_of r (some id) now =
      let (reason, asked) = eligibility r id now in
      if is_some reason then first_eligible asked candidates now else (some id, asked)

  unfoldable pub preferred :
      Router → Option ProviderFilter → Option String → ℕ → Option ProviderId × Router
  unfolding matching sticky_of
  preferred r (some prefer) key now = first_eligible r (matching prefer) now
  preferred r none key now = preferred_of r (sticky_of r (key_of key)) now

  -- The front of the chain: what is preferred, or else the sticky provider while it is eligible.
  unfoldable pub front :
      Router → Option ProviderFilter → Option ProviderId → ℕ → List ProviderId × Router
  unfolding matching eligibility
  front r (some prefer) s now = (matching prefer, r)
  front r none none now = ([], r)
  front r none (some id) now =
      let (reason, asked) = eligibility r id now in (if is_some reason then [] else id ∷ [], asked)

  -- `buildChain`
  unfoldable pub build_chain :
      Router → Option ProviderFilter → Option String → ℕ → List ProviderId × Router
  unfolding front sticky_of
  build_chain r prefer key now =
      let (ahead, asked) = front r prefer (sticky_of r (key_of key)) now in
      (ahead ++ (keep (is_outside ahead) candidates ++ (local ∷ [])), asked)

  unfoldable pub would_reach : Router → Option ProviderFilter → ℕ → Option ProviderId × Router
  unfolding build_chain
  would_reach r prefer now =
      let (chain, asked) = build_chain r prefer none now in
      first_eligible asked (keep is_cloud chain) now

  unfoldable pub pressure_for : Router → ProviderId → ℕ → Level × Router
  unfolding limiter_for
  pressure_for r id now =
      let (p, k) = pressure (quota_of id) now (limiter_for r id now) in
      (p.level, with_limiter r id k)
