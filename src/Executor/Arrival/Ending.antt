-- ===== src/Executor/Arrival/Ending.antt =====
-- The end of the open model, and a tick that nothing interrupts.
use loadify.Prelude.{
  ℕ, ◌+◌, ◌*◌, ◌≤◌, ◌<◌, ◌≡◌, ◌≢◌, ap, subst, true, ◌⊎◌, Bool-cases, ◌∙◌, inl, inr, Option, none,
  some, List, [], ◌∷◌, arith, ltb, length, Option-cases,
}
use loadify.Platform.{Platform}
use loadify.Executor.Arrival.{
  Arrivals, Work, take_job, begin, finish, retire, quit, leave, work, works_all,
}
use loadify.Executor.Arrival.Counts.{IsCounted, work-IsCounted}

module _ ⦃p : Platform⦄ where
  abbrev pub weight : Arrivals → ℕ
  weight a = 3 * a.jobs + 4 * a.holding + 3 * a.running + 2 * a.idle + a.leaving

  work-weight : (a b : Arrivals) (w : Work) → work a w ≡ some b → weight b < weight a
  unfolding work
  work-weight a b take_job e = ground (arith, e)
  work-weight a b begin e = ground (arith, e)
  work-weight a b finish e = ground (arith, e)
  work-weight a b retire e = ground (arith, e)
  work-weight a b quit e = ground (arith, e)
  work-weight a b leave e = ground (arith, e)

  work-closed : (a b : Arrivals) (w : Work) → work a w ≡ some b → b.closed ≡ a.closed
  unfolding work
  work-closed a b take_job e = ground (arith, e)
  work-closed a b begin e = ground (arith, e)
  work-closed a b finish e = ground (arith, e)
  work-closed a b retire e = ground (arith, e)
  work-closed a b quit e = ground (arith, e)
  work-closed a b leave e = ground (arith, e)

  -- Either the pool is empty or one of its workers can go on.
  abbrev Goes : Arrivals → Type 0
  Goes a = (a.pool ≡ 0) ⊎ ((w : Work) × (work a w ≢ none))

  idle-Goes : (a : Arrivals) → IsCounted a → a.closed ≡ true → a.pool ≡ a.idle → Goes a
  unfolding work
  idle-Goes a i c e = elim (Bool-cases (ltb 0 a.idle)) [
    | inr none_idle ↦ inl (ground (arith, none_idle, e))
    | inl one ↦ elim (Bool-cases (ltb 0 a.jobs)) [
      | inl some_job ↦ inr (take_job, ground (arith, one, some_job))
      | inr no_job ↦ inr (quit, ground (arith, one, no_job, c))
    ]
  ]

  goes : (a : Arrivals) → IsCounted a → a.closed ≡ true → Goes a
  unfolding work
  goes a i c = elim (Bool-cases (ltb 0 a.leaving)) [
    | inl e ↦ inr (leave, ground (arith, e))
    | inr l ↦ elim (Bool-cases (ltb 0 a.running)) [
      | inl e ↦ inr (finish, ground (arith, e))
      | inr r ↦ elim (Bool-cases (ltb 0 a.holding)) [
        | inl e ↦ inr (begin, ground (arith, e))
        | inr h ↦ idle-Goes a i c (ground (arith, l, r, h, i.workers_kept))
      ]
    ]
  ]

  works_all-step :
      (a b end : Arrivals) (w : Work) (ws : List Work)
      → works_all a (w ∷ ws) ≡ some end
      → work a w ≡ some b
      → works_all b ws ≡ some end
  unfolding works_all
  works_all-step a b end w ws e f =
      subst (λ (o : Option Arrivals). (elim o [ none ↦ none | some c ↦ works_all c ws ]) ≡ some end)
        f e

  abbrev or_else : Arrivals → Option Arrivals → Arrivals
  or_else a none = a
  or_else a (some b) = b

  works_all-Goes :
      (a : Arrivals) (ws : List Work) (end : Arrivals)
      → IsCounted a
      → a.closed ≡ true
      → works_all a ws ≡ some end
      → (length ws ≤ weight a) × IsCounted end × Goes end
  unfolding works_all
  works_all-Goes a [] end i c e =
      subst (λ (b : Arrivals). (0 ≤ weight a) × IsCounted b × Goes b) (ap (or_else a) e)
        (omega arith, i, goes a i c)
  works_all-Goes a (w ∷ ws) end i c e = elim (Option-cases (work a w)) [
    | inl f ↦ ground (arith, e, f)
    | inr (b, f) ↦
        let rest : works_all b ws ≡ some end = works_all-step a b end w ws e f in
        let (short, counted, goes_on) =
          works_all-Goes b ws end (work-IsCounted a b w i f) (work-closed a b w f ∙ c) rest in
        (omega (arith, work-weight a b w f, short), counted, goes_on)
  ]

  -- Every worker has left, and each iteration asked for was dropped, has ended, or is still due or
  -- in the channel.
  pub record IsOver (a : Arrivals) : Type 0 where
    pub nobody : a.pool ≡ 0
    pub none_busy : a.busy ≡ 0
    pub iterations_kept : a.scheduled ≡ a.due + a.dropped + a.jobs + a.iterations

  -- Once the channel is closed the wait for the workers ends: in whatever order they go on, they
  -- take at most as many steps as the weight of where they stand, and until all is over one of
  -- them can go on.
  pub closing_ends :
      (a : Arrivals) (ws : List Work) (end : Arrivals)
      → IsCounted a
      → a.closed ≡ true
      → works_all a ws ≡ some end
      → (length ws ≤ weight a) × (IsOver end ⊎ ((w : Work) × (work end w ≢ none)))
  closing_ends a ws end i c e =
      let (short, counted, goes_on) = works_all-Goes a ws end i c e in
      elim goes_on [
        | inl none_left ↦ (
          short,
          inl (record {
            nobody = none_left;
            none_busy = omega (arith, none_left, counted.workers_kept, counted.busy_running);
            iterations_kept =
                omega (arith, none_left, counted.workers_kept, counted.iterations_kept);
          }),
        )
        | inr more ↦ (short, inr more)
      ]
