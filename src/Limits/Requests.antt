-- ===== src/Limits/Requests.antt =====
-- src/lib/rate-limit.ts: `RequestRateLimiter`, a fixed-window counter for each key. Times are
-- milliseconds; a call takes the reading of the clock.
pub mod Memory
pub mod Budget
mod Tests
use asad.Base.{
  ℕ, ◌+◌, ◌-◌, ◌/◌, max, String, Bool, true, false, Option, none, some, List, [], ◌∷◌, leb,
  if◌then◌else◌, length, drop, is_some,
}
use asad.Base.Dict.{get, put, delete}

pub record Rule : Type 0 where
  pub limit : ℕ
  pub window_ms : ℕ

pub record Verdict : Type 0 where
  pub allowed : Bool
  pub remaining : ℕ
  pub retry_after_seconds : ℕ
  pub limit : ℕ

pub record Bucket : Type 0 where
  pub started_at : ℕ
  pub count : ℕ

abbrev pub Buckets : Type 0
Buckets = List (String × Bucket)

-- `evictIfNeeded`: the loop deletes keys from the front, as many as there are too many.
unfoldable pub evict : ℕ → Buckets → Buckets
evict max_keys m = if leb (length m) max_keys then m else drop (length m - max_keys) m

-- Whether the bucket of the key has to be started anew: `t - windowStartedAt >= windowMs`.
abbrev pub is_stale : Rule → Option Bucket → ℕ → Bool
is_stale rule none t = true
is_stale rule (some b) t = leb (b.started_at + rule.window_ms) t

abbrev pub fresh : ℕ → Bucket
fresh t = record { started_at = t; count = 0 }

-- The bucket that a check counts in, before it counts.
abbrev pub current : Rule → Option Bucket → ℕ → Bucket
current rule none t = fresh t
current rule (some b) t = if leb (b.started_at + rule.window_ms) t then fresh t else b

-- The map once the bucket is there: a new window goes to the end, and the oldest may go.
unfoldable pub prepared : Rule → ℕ → Buckets → String → ℕ → Buckets
prepared rule max_keys m key t =
    if is_stale rule (get m key) t then evict max_keys (put (delete m key) key (fresh t)) else m

abbrev pub counted : Bucket → Bucket
counted b = record b { count = b.count + 1 }

-- `bucket.count += 1` is seen through the map if the bucket is still in it.
unfoldable pub write_back : Buckets → String → Bucket → Buckets
write_back m key b = if is_some (get m key) then put m key b else m

unfoldable pub verdict : Rule → Bucket → ℕ → Verdict
verdict rule b t = record {
  allowed = leb b.count rule.limit;
  remaining = rule.limit - b.count;
  retry_after_seconds = max 1 ((b.started_at + rule.window_ms - t + 999) / 1000);
  limit = rule.limit;
}

unfoldable pub check : Rule → ℕ → Buckets → String → ℕ → Verdict × Buckets
unfolding prepared write_back
check rule max_keys m key t =
    let b = counted (current rule (get m key) t) in
    (verdict rule b t, write_back (prepared rule max_keys m key t) key b)

abbrev pub tracked_keys : Buckets → ℕ
tracked_keys m = length m

abbrev reset : Buckets → Buckets
reset m = []
