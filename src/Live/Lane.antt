-- ===== src/Live/Lane.antt =====
-- src/features/live/cloud-lane.ts and cloud-degradation.ts: one turn of the contextual lane in the
-- browser, with its retries, its bypass and its fallbacks. What the network, the caller's signal, the
-- fast lane and the translator do is an argument; the patterns over the text of a reason are too.
pub mod Budget
pub mod Answers
pub mod Bypass
mod Tests
use asad.Base.{
  ℕ, ◌+◌, ◌-◌, ◌*◌, max, String, Bool, true, false, not, ◌&&◌, ◌||◌, Option, none, some, List, [],
  ◌∷◌, ◌++◌, leb, ltb, ◌==◌, if◌then◌else◌, is_some, get_or_else,
}
use asad.Llm.Deadlines.{LagProfile, balanced, turn_budget_for}

abbrev pub client_network_slack_ms : ℕ
client_network_slack_ms = 1_200

abbrev pub min_useful_retry_ms : ℕ
min_useful_retry_ms = 1_200

-- `INTERPRET_RETRY_DELAYS_MS`, without the first, which is 0
abbrev pub retry_delays_ms : List ℕ
retry_delays_ms = 350 ∷ 900 ∷ []

abbrev pub client_turn_budget_ms : Option LagProfile → ℕ
client_turn_budget_ms lag = turn_budget_for (get_or_else lag balanced) + client_network_slack_ms

abbrev pub temporary_rate_limit_bypass_ms : ℕ
temporary_rate_limit_bypass_ms = 60_000

abbrev pub session_quota_bypass_ms : ℕ
session_quota_bypass_ms = 90 * 60_000

abbrev is_status : ℕ → Option ℕ → Bool
is_status n none = false
is_status n (some s) = s == n

-- `cloudBypassMsForFailure`, given what the two patterns say of the reason
abbrev pub cloud_bypass_ms : Option ℕ → Bool → Bool → ℕ
cloud_bypass_ms status daily_quota rate_limit =
    if daily_quota
    then session_quota_bypass_ms
    else if is_status 429 status || rate_limit
    then temporary_rate_limit_bypass_ms
    else 0

abbrev pub retryable_interpret_status : ℕ → Bool
retryable_interpret_status status =
    (status == 408 || status == 425) || (status == 429 || leb 500 status)

-- Who answered: the server's provider, the translator of the browser, or the local helper.
pub data Answerer : Type 0 where
  cloud browser provisional helper : Answerer

-- What a response that is ok holds.
pub data Body : Type 0 where
  malformed from_cloud : Body
  from_local : Bool → Bool → Body

-- How a request settles: a response, its status with a `Retry-After`, or an error, which says whether
-- the deadline had passed, whether the caller had aborted, and whether it is an `AbortError`.
pub data Reply : Type 0 where
  replied : Body → Reply
  refused : ℕ → Option ℕ → Reply
  failed : Bool → Bool → Bool → Reply

-- What happens to one request: its reply after so long, whether the caller aborts the sleeps after
-- and before it, and how much longer than asked those sleeps last, since a timer may fire late.
pub record Exchange : Type 0 where
  pub took : ℕ
  pub reply : Reply
  pub aborts_wait : Bool
  pub aborts_delay : Bool
  pub late_wait : ℕ
  pub late_delay : ℕ

pub record World : Type 0 where
  pub started_at : ℕ
  pub lag : Option LagProfile
  pub exchange : ℕ → Exchange
  pub ready : ℕ → Bool
  -- whether the fast lane shows the turn, whether the caller has aborted by then, and whether the
  -- translator puts something out
  pub provisional_stands : Bool
  pub aborted_then : Bool
  pub translates : Bool

pub data Ending : Type 0 where
  interpreted : Answerer → Ending
  threw : Ending

pub record Request : Type 0 where
  pub at : ℕ
  pub deadline : ℕ

-- The lane within a turn: its bypass, the clock, and what it has sent.
pub record Lane : Type 0 where
  pub bypass_until : ℕ
  pub now : ℕ
  pub sent : List Request

module _ (w : World) where
  abbrev pub budget_end : ℕ
  budget_end = w.started_at + client_turn_budget_ms w.lag

  -- `localFallback`
  unfoldable pub local_fallback : Lane → Lane × Ending
  local_fallback l =
      if w.provisional_stands
      then (l, interpreted provisional)
      else if w.aborted_then
      then (l, threw)
      else if w.ready l.now && w.translates
      then (l, interpreted browser)
      else (record l { bypass_until = 0 }, interpreted helper)

  abbrev pub bypassed : Lane → ℕ → Lane
  bypassed l ms = record l { bypass_until = l.now + ms }

  -- A response that is ok.
  unfoldable pub on_body : Lane → Body → Lane × Ending
  unfolding local_fallback
  on_body l malformed = local_fallback l
  on_body l from_cloud = (record l { bypass_until = 0 }, interpreted cloud)
  on_body l (from_local daily_quota rate_limit) =
      let ms = cloud_bypass_ms none daily_quota rate_limit in
      if w.ready l.now && ltb 0 ms then local_fallback (bypassed l ms) else local_fallback l

  -- The sleep for a `Retry-After` of up to 1.5 seconds.
  abbrev pub waited : Lane → Option ℕ → ℕ → Lane
  waited l none late = l
  waited l (some ms) late =
      if ltb 0 ms && leb ms 1_500 then record l { now = l.now + (ms + late) } else l

  abbrev pub waits : Option ℕ → Bool
  waits none = false
  waits (some ms) = ltb 0 ms && leb ms 1_500

  -- What a reply leads to: the turn ends, or it may be tried again.
  unfoldable pub on_reply : Lane → Reply → Bool → Bool → ℕ → Lane × Option Ending
  unfolding on_body
  on_reply l (replied body) last aborts_wait late = let (m, e) = on_body l body in (m, some e)
  on_reply l (refused status after) last aborts_wait late =
      let (m, e) = local_fallback (bypassed l (cloud_bypass_ms (some status) false false)) in
      let (n, f) = local_fallback l in
      if status == 429 && w.ready l.now
      then (m, some e)
      else if not (retryable_interpret_status status) || last
      then (n, some f)
      else if waits after && aborts_wait
      then (l, some threw)
      else (waited l after late, none)
  on_reply l (failed expired aborted abort_error) last aborts_wait late =
      let (n, f) = local_fallback l in
      if expired && not aborted
      then (n, some f)
      else if aborted || abort_error
      then (l, some threw)
      else if last
      then (n, some f)
      else (l, none)

  -- One request, with what is left of the turn for its deadline.
  unfoldable pub fetched : Lane → ℕ → Lane
  fetched l attempt = record l {
    now = l.now + (w.exchange attempt).took;
    sent = l.sent ++ (record { at = l.now; deadline = max 1 (budget_end - l.now) } ∷ []);
  }

  unfoldable pub try_once : Lane → ℕ → Bool → Lane × Option Ending
  unfolding on_reply fetched
  try_once l attempt last =
      on_reply (fetched l attempt) (w.exchange attempt).reply last (w.exchange attempt).aborts_wait
        (w.exchange attempt).late_wait

  abbrev pub is_last : List ℕ → Bool
  is_last [] = true
  is_last (d ∷ ds) = false

  -- The attempts after the first, each behind its delay.
  unfoldable pub retry : Lane → ℕ → List ℕ → Lane × Ending
  unfolding try_once
  retry l attempt [] = local_fallback l
  retry l attempt (d ∷ delays) =
      let later = record l { now = l.now + (d + (w.exchange attempt).late_delay) } in
      let (m, e) = try_once later attempt (is_last delays) in
      let rest = retry m (attempt + 1) delays in
      if ltb budget_end (l.now + min_useful_retry_ms)
      then local_fallback l
      else if (w.exchange attempt).aborts_delay
      then (l, threw)
      else elim e [ some f ↦ (m, f) | none ↦ rest ]

  -- `interpret`
  unfoldable pub interpret : ℕ → Lane × Ending
  unfolding retry
  interpret bypass_until =
      let l : Lane = record { bypass_until = bypass_until; now = w.started_at; sent = [] } in
      let (m, e) = try_once l 0 false in
      let rest = retry m 1 retry_delays_ms in
      if w.ready w.started_at && ltb w.started_at bypass_until
      then local_fallback l
      else elim e [ some f ↦ (m, f) | none ↦ rest ]
