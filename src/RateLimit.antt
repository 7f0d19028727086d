-- ===== src/RateLimit.antt =====
-- internal/apisrv/ratelimit.go: the fixed-window limit on login attempts. Times are milliseconds,
-- and the clock is an argument.
pub mod Windows
pub mod Address
use loadify.Prelude.{
  ℕ, ◌+◌, Bool, true, false, String, List, [], ◌∷◌, Option, none, some, ltb, leb, if◌then◌else◌,
  length, filter, string_eq,
}
use loadify.Dict.{lookup, insert}

abbrev pub login_max_attempts : ℕ
login_max_attempts = 10

abbrev pub login_window_ms : ℕ
login_window_ms = 60_000

pub record RlBucket : Type 0 where
  pub count : ℕ
  pub reset : ℕ

pub record RateLimiter : Type 0 where
  pub max : ℕ
  pub window : ℕ
  pub buckets : List (String × RlBucket)

-- newRateLimiter
unfoldable pub new_rate_limiter : ℕ → ℕ → RateLimiter
new_rate_limiter max window = record { max = max; window = window; buckets = [] }

-- The loop that drops the windows that are over, where there are more than 4096.
unfoldable pub prune_loop : ℕ → List (String × RlBucket) → List (String × RlBucket)
prune_loop now [] = []
prune_loop now ((key, b) ∷ buckets) =
    if ltb b.reset now then prune_loop now buckets else (key, b) ∷ prune_loop now buckets

unfoldable pub prune : ℕ → List (String × RlBucket) → List (String × RlBucket)
unfolding prune_loop
prune now buckets = if ltb 4096 (length buckets) then prune_loop now buckets else buckets

-- A new window, behind a prune.
unfoldable pub open_window : RateLimiter → String → ℕ → RateLimiter
unfolding prune
open_window rl key now = record rl {
  buckets = insert key (record { count = 1; reset = now + rl.window }) (prune now rl.buckets);
}

-- allow
unfoldable pub allow : RateLimiter → String → ℕ → RateLimiter × Bool
unfolding open_window
allow rl key now = elim (lookup key rl.buckets) [
  | none ↦ (open_window rl key now, true)
  | some b ↦ if ltb b.reset now then (open_window rl key now, true) else (
    record rl { buckets = insert key (record b { count = b.count + 1 }) rl.buckets },
    leb (b.count + 1) rl.max,
  )
]
