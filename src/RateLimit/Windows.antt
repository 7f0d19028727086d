-- ===== src/RateLimit/Windows.antt =====
-- What the limiter lets through.
use loadify.Prelude.{
  ℕ, ◌+◌, ◌-◌, ◌≤◌, ◌≡◌, ◌≢◌, inl, inr, Bool, String, List, [], ◌∷◌, some, arith, All, length,
  sum_of, min, ltb, leb, if◌then◌else◌, string_eq, ==_iff, Option-cases, Bool-cases,
}
use loadify.Dict.{lookup, insert, lookup-insert}
use loadify.RateLimit.{RateLimiter, RlBucket, allow, open_window, prune, prune_loop}

-- Attempts of one client at given times.
pub attempts : RateLimiter → String → List ℕ → RateLimiter × List Bool
attempts rl key [] = (rl, [])
attempts rl key (now ∷ later) =
    let (rl', ok) = allow rl key now in let (last, oks) = attempts rl' key later in (last, ok ∷ oks)

abbrev pub count_true : List Bool → ℕ
count_true = sum_of (λ ok. if ok then 1 else 0)

-- An attempt in an open window raises its count.
allow_open :
    (rl : RateLimiter) (key : String) (now : ℕ) (b : RlBucket)
    → lookup key rl.buckets ≡ some b
    → now ≤ b.reset
    → ((allow rl key now).1 ≡ leb (b.count + 1) rl.max)
      × ((allow rl key now).0.max ≡ rl.max)
      × (lookup key (allow rl key now).0.buckets ≡ some (record b { count = b.count + 1 }))
unfolding allow
allow_open rl key now b e le =
    ground (
      arith,
      e,
      lookup-insert key key (record b { count = b.count + 1 }) rl.buckets,
      ==_iff key key,
    )

-- Of a client's attempts in an open window as many are let through as the cap leaves, and no more.
pub window_cap :
    (rl : RateLimiter) (key : String) (times : List ℕ) (b : RlBucket)
    → lookup key rl.buckets ≡ some b
    → All (λ now. now ≤ b.reset) times
    → count_true (attempts rl key times).1 ≡ min (length times) (rl.max - b.count)
unfolding attempts
window_cap rl key [] b e h = omega arith
window_cap rl key (now ∷ later) b e h =
    let (ok, max', found) = allow_open rl key now b e h.0 in
    let ih =
      window_cap (allow rl key now).0 key later (record b { count = b.count + 1 }) found h.1 in
    ground (arith, ok, max', ih)

lookup-prune_loop :
    (now : ℕ) (key : String) (b : RlBucket) (buckets : List (String × RlBucket))
    → lookup key buckets ≡ some b
    → now ≤ b.reset
    → lookup key (prune_loop now buckets) ≡ some b
unfolding prune_loop lookup
lookup-prune_loop now key b [] e le = absurd (ground (arith, e))
lookup-prune_loop now key b ((other, c) ∷ buckets) e le =
    ground (arith, e, le, lookup-prune_loop now key b buckets)

lookup-prune :
    (now : ℕ) (key : String) (b : RlBucket) (buckets : List (String × RlBucket))
    → lookup key buckets ≡ some b
    → now ≤ b.reset
    → lookup key (prune now buckets) ≡ some b
unfolding prune
lookup-prune now key b buckets e le = ground (arith, e, lookup-prune_loop now key b buckets e le)

kept-insert :
    (key other : String) (c b : RlBucket) (buckets : List (String × RlBucket))
    → key ≢ other
    → lookup other buckets ≡ some b
    → lookup other (insert key c buckets) ≡ some b
kept-insert key other c b buckets ne e =
    ground (arith, ne, e, lookup-insert key other c buckets, ==_iff key other)

open_window-others :
    (rl : RateLimiter) (key other : String) (now : ℕ) (b : RlBucket)
    → key ≢ other
    → lookup other rl.buckets ≡ some b
    → now ≤ b.reset
    → lookup other (open_window rl key now).buckets ≡ some b
unfolding open_window
open_window-others rl key other now b ne e le =
    kept-insert key other _ b (prune now rl.buckets) ne (lookup-prune now other b rl.buckets e le)

-- An attempt of one client, with the pruning that it may do, leaves the open window of another
-- client as it is.
pub allow-others :
    (rl : RateLimiter) (key other : String) (now : ℕ) (b : RlBucket)
    → key ≢ other
    → lookup other rl.buckets ≡ some b
    → now ≤ b.reset
    → lookup other (allow rl key now).0.buckets ≡ some b
unfolding allow
allow-others rl key other now b ne e le =
    let opened = open_window-others rl key other now b ne e le in
    elim (Option-cases (lookup key rl.buckets)) [
      | inl new_client ↦ rw (new_client, allow) opened
      | inr (c, known) ↦ elim (Bool-cases (ltb c.reset now)) [
        | inl over ↦ rw (known, allow, over) opened
        | inr still ↦ rw (known, allow, still) (kept-insert key other _ b rl.buckets ne e)
      ]
    ]
