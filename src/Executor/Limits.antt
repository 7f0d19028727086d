-- ===== src/Executor/Limits.antt =====
-- internal/worker/executor/limits.go: the ceiling on a worker's virtual users, with what it uses of
-- `strconv.Atoi`. The environment variable is an argument, as its bytes.
use loadify.Prelude.{
  ℕ, ◌+◌, ◌-◌, ◌*◌, ◌^◌, ◌≤◌, ◌&&◌, [], ◌∷◌, Bytes, Option, none, some, ltb, leb, eqb, is_nil,
  if◌then◌else◌, ℤ, pos, negsuc, arith,
}

abbrev pub default_max_vus_per_worker : ℕ
default_max_vus_per_worker = 5000

-- The digits of a decimal numeral, in front of which the number `n` was read.
unfoldable pub digits_loop : Bytes → ℕ → Option ℕ
digits_loop [] n = some n
digits_loop (c ∷ s) n =
    let rest = digits_loop s (n * 10 + (c - 48)) in if leb 48 c && leb c 57 then rest else none

unfoldable pub digits : Bytes → Option ℕ
unfolding digits_loop
digits s = if is_nil s then none else digits_loop s 0

-- The int64 that is `n`, or that is minus `n`; `none` is a range error.
unfoldable pub positive : ℕ → Option ℤ
positive n = if ltb n (2 ^ 63) then some (pos n) else none

unfoldable pub negative : ℕ → Option ℤ
negative n =
    if eqb n 0 then some (pos 0) else if leb n (2 ^ 63) then some (negsuc (n - 1)) else none

-- strconv.Atoi
unfoldable pub atoi : Bytes → Option ℤ
unfolding digits positive negative
atoi [] = none
atoi (c ∷ s) =
    if eqb c 45
    then elim (digits s) [ none ↦ none | some n ↦ negative n ]
    else elim (digits (if eqb c 43 then s else c ∷ s)) [ none ↦ none | some n ↦ positive n ]

-- maxVUsPerWorker
unfoldable pub max_vus_per_worker : Bytes → ℤ
unfolding atoi
max_vus_per_worker v =
    if is_nil v
    then pos default_max_vus_per_worker
    else elim (atoi v) [ none ↦ pos default_max_vus_per_worker | some n ↦ n ]

-- clampVUs
unfoldable pub clamp_vus : ℕ → ℤ → ℕ
clamp_vus target (negsuc n) = target
clamp_vus target (pos cap) = if ltb 0 cap && ltb cap target then cap else target

-- Where the cap is positive, the result is within it.
pub clamp_vus-le : (target cap : ℕ) → 1 ≤ cap → clamp_vus target (pos cap) ≤ cap
unfolding clamp_vus
clamp_vus-le target cap h = ground arith
