-- ===== src/Llm/Deadlines.antt =====
-- src/providers/llm/deadlines.ts: how long a live turn and an attempt may take.
use asad.Base.{
  ℕ, ◌+◌, ◌-◌, ◌*◌, ◌/◌, ◌≤◌, min, max, Option, none, some, ltb, if◌then◌else◌, get_or_else, arith,
}
use asad.Llm.Providers.{ProviderId, openrouter, anthropic}

pub data LagProfile : Type 0 where
  fast balanced safe : LagProfile

pub data Workflow : Type 0 where
  live prep review : Workflow

abbrev pub live_deadline_ms : LagProfile → ℕ
live_deadline_ms fast = 2_500
live_deadline_ms balanced = 3_500
live_deadline_ms safe = 5_000

abbrev pub local_fallback_headroom_ms : ℕ
local_fallback_headroom_ms = 250

abbrev pub provider_slack_ms : ProviderId → ℕ
provider_slack_ms openrouter = 2_000
provider_slack_ms anthropic = 300
provider_slack_ms _ = 0

-- `Math.round(base * 1.6)`, in tenths
unfoldable pub turn_budget_for : LagProfile → ℕ
turn_budget_for lag = (live_deadline_ms lag * 16 + 5) / 10

abbrev slack_of : Option ProviderId → ℕ
slack_of none = 0
slack_of (some id) = provider_slack_ms id

-- `Math.round((base + slack) * shrink)`, in tenths
abbrev requested : LagProfile → Option ProviderId → ℕ → ℕ
requested lag id attempt =
    ((live_deadline_ms lag + slack_of id) * (if ltb 0 attempt then 6 else 10) + 5) / 10

unfoldable pub deadline_for : Workflow → Option LagProfile → Option ProviderId → Option ℕ → ℕ
unfolding turn_budget_for
deadline_for prep lag id attempt = 45_000
deadline_for review lag id attempt = 60_000
deadline_for live lag id attempt =
    let profile = get_or_else lag balanced in
    min (requested profile id (get_or_else attempt 0))
      (max 1 (turn_budget_for profile - local_fallback_headroom_ms))

-- A live attempt always leaves the headroom of the local interpreter within its turn, and it is never
-- shorter than 1.5 seconds.
pub deadline_for-leaves :
    (lag : LagProfile) (id : Option ProviderId) (attempt : Option ℕ)
    → (deadline_for live (some lag) id attempt + local_fallback_headroom_ms ≤ turn_budget_for lag)
      × (1_500 ≤ deadline_for live (some lag) id attempt)
unfolding deadline_for turn_budget_for
deadline_for-leaves fast id attempt = ground arith
deadline_for-leaves balanced id attempt = ground arith
deadline_for-leaves safe id attempt = ground arith
