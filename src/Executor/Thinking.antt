-- ===== src/Executor/Thinking.antt =====
-- internal/worker/executor/think.go: the pauses between iterations, in nanoseconds. What the random
-- generator gives to one call is an argument.
use loadify.Prelude.{
  ℕ, ◌+◌, ◌-◌, ◌*◌, ◌%◌, ◌^◌, ◌≤◌, ◌<◌, ◌≡◌, ap, ◌∙◌, inl, inr, Bool-cases, Bool, false, not, ◌||◌,
  string_eq, ◌==◌, Option, none, some, ltb, if◌then◌else◌, ℤ, pos, negsuc, arith,
}
use loadify.Platform.{Platform, Float, float}
use loadify.Plan.Validation.{ThinkTimeConfig, is_below}
use loadify.Plan.Validation.Whole.{think_error}

-- int64(n) of what a sum or a product comes to.
abbrev pub signed64 : ℕ → ℤ
signed64 n = if ltb n (2 ^ 63) then pos n else negsuc (2 ^ 64 - 1 - n)

unfoldable pub wrap64 : ℤ → ℤ
wrap64 (pos n) = signed64 (n % 2 ^ 64)
wrap64 (negsuc n) = signed64 (2 ^ 64 - 1 - n % 2 ^ 64)

-- time.Duration(v) * time.Millisecond
unfoldable pub ms : ℤ → ℤ
unfolding wrap64
ms (pos n) = wrap64 (pos (n * 1000000))
ms (negsuc n) = wrap64 (negsuc ((n + 1) * 1000000 - 1))

-- The sum with a natural number, and the distance up to a greater number.
unfoldable pub plus : ℤ → ℕ → ℤ
plus (pos a) r = pos (a + r)
plus (negsuc a) r = if ltb a r then pos (r - a - 1) else negsuc (a - r)

unfoldable pub span : ℤ → ℤ → ℕ
span (pos a) (pos b) = b - a
span (negsuc a) (pos b) = b + a + 1
span (negsuc a) (negsuc b) = a - b
span (pos a) (negsuc b) = 0

unfoldable pub is_positive : ℤ → Bool
is_positive (pos n) = ltb 0 n
is_positive (negsuc n) = false

module _ ⦃p : Platform⦄ where
  pub record Thinker : Type 0 where
    pub cfg : Option ThinkTimeConfig
    pub fixed : ℤ

  -- rng.Int63n(n), rng.NormFloat64() and rng.ExpFloat64().
  pub record Draw : Type 0 where
    pub int63n : ℕ → ℕ
    pub norm_float64 : Float
    pub exp_float64 : Float

  -- any
  unfoldable pub any_for : ThinkTimeConfig → Bool
  unfolding is_positive
  any_for c =
      if c.distribution == "uniform"
      then is_positive c.max_ms
      else if (c.distribution == "gaussian") || (c.distribution == "poisson")
      then is_positive c.mean_ms
      else is_positive c.min_ms

  unfoldable pub any : Thinker → Bool
  unfolding any_for is_positive
  any t = elim t.cfg [ none ↦ is_positive t.fixed | some c ↦ any_for c ]

  -- The cases of next.
  unfoldable pub uniform : ThinkTimeConfig → Draw → ℤ
  unfolding ms plus span wrap64
  uniform c d =
      if not (is_below c.min_ms c.max_ms)
      then ms c.min_ms
      else ms (wrap64 (plus c.min_ms (d.int63n (span c.min_ms c.max_ms + 1))))

  unfoldable pub gaussian : ThinkTimeConfig → Draw → ℤ
  unfolding ms
  gaussian c d =
      let v =
        p.add_float (p.of_signed c.mean_ms)
          (p.mul_float d.norm_float64 (p.of_signed c.stddev_ms)) in
      ms (pos (p.to_int (if p.lt_float v (float 0) then float 0 else v)))

  unfoldable pub poisson : ThinkTimeConfig → Draw → ℤ
  unfolding ms is_positive
  poisson c d =
      let mean = p.of_signed c.mean_ms in
      let v = p.mul_float d.exp_float64 mean in
      if not (is_positive c.mean_ms)
      then pos 0
      else ms (pos (p.to_int (p.min_float v (p.mul_float mean (float 20)))))

  -- next
  unfoldable pub next_for : ThinkTimeConfig → Draw → ℤ
  unfolding uniform gaussian poisson ms
  next_for c d =
      if c.distribution == "uniform"
      then uniform c d
      else if c.distribution == "gaussian"
      then gaussian c d
      else if c.distribution == "poisson"
      then poisson c d
      else ms c.min_ms

  unfoldable pub next : Thinker → Draw → ℤ
  unfolding next_for
  next t d = elim t.cfg [ none ↦ t.fixed | some c ↦ next_for c d ]

  ms-small : (n : ℕ) → n < 9_000_000_000_000 → ms (pos n) ≡ pos (n * 1000000)
  unfolding ms wrap64
  ms-small n h = ground arith

  wrap64-small : (n : ℕ) → n < 2 ^ 63 → wrap64 (pos n) ≡ pos n
  unfolding wrap64
  wrap64-small n h = ground arith

  -- A uniform distribution over whole bounds.
  abbrev pub uniform_of : ℕ → ℕ → ThinkTimeConfig
  uniform_of lo hi = record {
    distribution = "uniform";
    min_ms = pos lo;
    max_ms = pos hi;
    mean_ms = pos 0;
    stddev_ms = pos 0;
  }

  think_error-le : (lo hi : ℕ) → think_error (some (uniform_of lo hi)) ≡ none → lo ≤ hi
  unfolding think_error
  think_error-le lo hi e = ground (arith, e)

  uniform-in :
      (lo hi : ℕ) (d : Draw)
      → lo ≤ hi
      → hi < 9_000_000_000_000
      → d.int63n (hi - lo + 1) < hi - lo + 1
      → (n : ℕ) × (uniform (uniform_of lo hi) d ≡ pos (n * 1000000)) × (lo ≤ n) × (n ≤ hi)
  unfolding uniform span plus
  uniform-in lo hi d le h r = elim (Bool-cases (ltb lo hi)) [
    | inr e ↦ (lo, rw e (ms-small lo (omega (arith, le, h))), omega arith, le)
    | inl e ↦
        let n : ℕ = lo + d.int63n (hi - lo + 1) in
        let few : n ≤ hi = omega (arith, le, r) in
        (
          n,
          rw e
              (ap ms (wrap64-small n (omega (arith, few, h))) ∙ ms-small n (omega (arith, few, h))),
          omega arith,
          few,
        )
  ]

  -- The pauses of a uniform distribution that the validation of a plan accepts lie between its
  -- bounds, for bounds below 9,000,000,000,000 ms and a generator that keeps to the limit it is given.
  pub next_in_range :
      (lo hi : ℕ) (d : Draw) (fixed : ℤ)
      → think_error (some (uniform_of lo hi)) ≡ none
      → hi < 9_000_000_000_000
      → d.int63n (hi - lo + 1) < hi - lo + 1
      → (n : ℕ) × (next (record { cfg = some (uniform_of lo hi); fixed = fixed }) d
          ≡ pos (n * 1000000))
        × (lo ≤ n)
        × (n ≤ hi)
  unfolding next next_for
  next_in_range lo hi d fixed e h r = uniform-in lo hi d (think_error-le lo hi e) h r
