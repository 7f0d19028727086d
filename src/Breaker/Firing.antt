-- ===== src/Breaker/Firing.antt =====
-- When the circuit breaker fires.
use loadify.Prelude.{
  ℕ, ◌+◌, ◌≤◌, ◌<◌, ◌≡◌, refl, ap, subst, ◌∙◌, leb→le, ◌⊎◌, inl, inr, Bool, true, ◌&&◌, List, [],
  ◌∷◌, ◌++◌, none, some, arith, ltb, leb, if◌then◌else◌, length, All, Bool-cases,
}
use loadify.Platform.{Platform, float}
use loadify.Rollups.{LiveTick}
use loadify.Breaker.{Breaker, Reason, stall_loop, eval_auto_stop}

module _ ⦃p : Platform⦄ where
  -- Virtual users are active and no request completed.
  abbrev pub stalled : LiveTick → Bool
  stalled tk = ltb 0 tk.active_vus && p.eq_float tk.rps (float 0)

  -- The reasons that the callback is given over a sequence of evaluations.
  pub reasons : Breaker → List (List LiveTick) → List Reason
  reasons b [] = []
  reasons b (ticks ∷ batches) =
      let rest = reasons (eval_auto_stop b ticks).0 batches in
      elim (eval_auto_stop b ticks).1 [ none ↦ rest | some r ↦ r ∷ rest ]

  fired-reasons :
      (b : Breaker) (batches : List (List LiveTick)) → b.auto_fired ≡ true → reasons b batches ≡ []
  unfolding reasons eval_auto_stop
  fired-reasons b [] h = refl
  fired-reasons b (ticks ∷ batches) h = ground (arith, fired-reasons b batches)

  eval_fires :
      (b : Breaker) (ticks : List LiveTick)
      → ((eval_auto_stop b ticks).1 ≡ none) ⊎ ((eval_auto_stop b ticks).0.auto_fired ≡ true)
  unfolding eval_auto_stop
  eval_fires b ticks = ground arith

  -- Over any sequence of evaluations the stop callback is called once at most.
  pub length-reasons-le :
      (b : Breaker) (batches : List (List LiveTick)) → length (reasons b batches) ≤ 1
  unfolding reasons
  length-reasons-le b [] = omega arith
  length-reasons-le b (ticks ∷ batches) = ground (
    arith,
    length-reasons-le (eval_auto_stop b ticks).0 batches,
    fired-reasons (eval_auto_stop b ticks).0 batches,
    eval_fires b ticks,
  )

  -- Where the stall breaker trips, it has seen as many stalled seconds in a row as the streak says.
  pub record Tripped (stall_sec streak seconds : ℕ) (ticks : List LiveTick) : Type 0 where
    pub before : List LiveTick
    pub run : List LiveTick
    pub rest : List LiveTick
    pub split : ticks ≡ before ++ run ++ rest
    pub all_stalled : All (λ tk. stalled tk ≡ true) run
    pub long : stall_sec ≤ seconds
    pub counted : (length run ≡ seconds) ⊎ ((before ≡ []) × (length run + streak ≡ seconds))

  -- The streak behind one more second.
  abbrev streak_after : ℕ → LiveTick → ℕ
  streak_after streak tk = if stalled tk then streak + 1 else 0

  Tripped-cons :
      (stall_sec streak seconds : ℕ) (tk : LiveTick) (ticks : List LiveTick)
      → Tripped stall_sec (streak_after streak tk) seconds ticks
      → Tripped stall_sec streak seconds (tk ∷ ticks)
  Tripped-cons stall_sec streak seconds tk ticks t = elim (Bool-cases (stalled tk)) [
    | inl yes' ↦ elim t.counted [
      | inl n ↦ skip (inl n)
      | inr (first, n) ↦ record {
        before = [];
        run = tk ∷ t.run;
        rest = t.rest;
        split = ap (◌∷◌ tk) (t.split ∙ ap (λ l. l ++ t.run ++ t.rest) first);
        all_stalled = (yes', t.all_stalled);
        long = t.long;
        counted = inr (refl, ground (arith, n));
      }
    ]
    | inr no' ↦ elim t.counted [
      | inl n ↦ skip (inl n)
      | inr (first, n) ↦ skip (inl (ground (arith, n)))
    ]
  ]
    where
      skip :
          (length t.run ≡ seconds) ⊎ ((tk ∷ t.before ≡ []) × (length t.run + streak ≡ seconds))
          → Tripped stall_sec streak seconds (tk ∷ ticks)
      skip c = record {
        before = tk ∷ t.before;
        run = t.run;
        rest = t.rest;
        split = ap (◌∷◌ tk) t.split;
        all_stalled = t.all_stalled;
        long = t.long;
        counted = c;
      }

  Tripped-now :
      (stall_sec streak : ℕ) (tk : LiveTick) (ticks : List LiveTick)
      → stall_sec ≤ streak_after streak tk
      → Tripped stall_sec streak (streak_after streak tk) (tk ∷ ticks)
  Tripped-now stall_sec streak tk ticks le = elim (Bool-cases (stalled tk)) [
    | inl yes' ↦ record {
      before = [];
      run = tk ∷ [];
      rest = ticks;
      split = refl;
      all_stalled = (yes', tt);
      long = le;
      counted = inr (refl, ground arith);
    }
    | inr no' ↦ record {
      before = [];
      run = [];
      rest = tk ∷ ticks;
      split = refl;
      all_stalled = tt;
      long = le;
      counted = inl (ground arith);
    }
  ]

  -- The stall breaker trips only where the finalized seconds hold a row of seconds with active
  -- virtual users and no completed request, as many as it reports and at least as many as
  -- configured; a row that starts with the first second also counts the streak from before.
  pub stall_loop-Tripped :
      (stall_sec streak : ℕ) (ticks : List LiveTick) (seconds vus : ℕ)
      → stall_loop stall_sec streak ticks ≡ (seconds, some vus)
      → Tripped stall_sec streak seconds ticks
  unfolding stall_loop
  stall_loop-Tripped stall_sec streak [] seconds vus e = absurd (ground arith)
  stall_loop-Tripped stall_sec streak (tk ∷ ticks) seconds vus e =
      let s' = streak_after streak tk in
      elim (Bool-cases (leb stall_sec s')) [
        | inl now ↦
            let eq : s' ≡ seconds = ground arith in
            subst (λ n. Tripped stall_sec streak n (tk ∷ ticks)) eq
              (Tripped-now stall_sec streak tk ticks (leb→le _ _ now))
        | inr later ↦
            Tripped-cons stall_sec streak seconds tk ticks
              (stall_loop-Tripped stall_sec s' ticks seconds vus (ground arith))
      ]

  -- Enough stalled seconds in a row trip the stall breaker, at the first second at which there
  -- are enough.
  pub stall_loop_trips :
      (stall_sec streak : ℕ) (ticks : List LiveTick)
      → All (λ tk. stalled tk ≡ true) ticks
      → streak < stall_sec
      → stall_sec ≤ streak + length ticks
      → (vus : ℕ) × (stall_loop stall_sec streak ticks ≡ (stall_sec, some vus))
  unfolding stall_loop
  stall_loop_trips stall_sec streak [] a lt le = absurd (omega arith)
  stall_loop_trips stall_sec streak (tk ∷ ticks) a lt le =
      elim (Bool-cases (leb stall_sec (streak + 1))) [
        | inl now ↦ (tk.active_vus, ground arith)
        | inr later ↦
            let (vus, e) =
              stall_loop_trips stall_sec (streak + 1) ticks a.1 (ground arith) (omega arith) in
            (vus, ground (arith, e))
      ]
