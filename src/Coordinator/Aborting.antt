-- ===== src/Coordinator/Aborting.antt =====
-- internal/coordinator/service.go: what the aborts at the end of `reapOnce` leave of each run.
use loadify.Prelude.{
  ℕ, ◌-◌, ◌≢◌, ◌≡◌, refl, sym, ap, subst, ◌∙◌, inl, inr, true, false, String, List, [], ◌∷◌, ◌++◌,
  some, arith, All, string_eq, ◌==◌, ==_iff, Bool-cases,
}
use loadify.Platform.{Platform}
use loadify.Wire.{aborted}
use loadify.Dict.{lookup, insert, lookup-insert}
use loadify.Breaker.{Reason, workers_disconnected}
use loadify.Coordinator.State.{RunState, Service, member, is_zero}
use loadify.Coordinator.Dispatch.{drain}
use loadify.Coordinator.Lifecycle.{
  ended_run, finalize_locked, force_finalize_run, forced, is_forceable,
}
use loadify.Coordinator.Watchdog.{abort_all}
use loadify.Coordinator.Slots.{Absent}
use loadify.Coordinator.Cases.{finalize_cases, force_finalize_cases}
use loadify.Coordinator.Queueing.{drain_order, drain_untouched}
use loadify.Coordinator.Ending.{lookup-force_finalize_run}

module _ ⦃p : Platform⦄ where
  -- A run is stored, and no request of the queue is for it.
  abbrev Keeps : String → RunState → Service → Type 0
  Keeps id rs s = (lookup id s.runs ≡ some rs) × Absent id s.queue

  All-back :
      {A : Type 0} (P : A → Type 0) (front back : List A) → All P (front ++ back) → All P back
  All-back P [] back h = h
  All-back P (x ∷ front) back h = All-back P front back h.1

  drain-Absent :
      (id : String) (s : Service) (now : ℕ) → Absent id s.queue → Absent id (drain s now).queue
  drain-Absent id s now a =
      let (taken, split, _, _, _) = drain_order s now in
      All-back (λ req. req.run_id ≢ id) taken (drain s now).queue (subst (Absent id) split a)

  drain-Keeps :
      (id : String) (rs : RunState) (s : Service) (now : ℕ)
      → Keeps id rs s
      → Keeps id rs (drain s now)
  drain-Keeps id rs s now (e, a) = (drain_untouched s now id a ∙ e, drain-Absent id s now a)

  insert-Keeps :
      (id j : String) (rs other : RunState) (s : Service) (n : ℕ)
      → (j == id) ≡ false
      → Keeps id rs s
      → Keeps id rs (record s { runs = insert j other s.runs; running = n })
  insert-Keeps id j rs other s n d (e, a) =
      (ground (arith, lookup-insert j id other s.runs, d, e), a)

  finalize-Keeps :
      (id j : String) (rs : RunState) (s : Service) (now : ℕ)
      → (j == id) ≡ false
      → Keeps id rs s
      → Keeps id rs (finalize_locked s j aborted now).0
  finalize-Keeps id j rs s now d k =
      finalize_cases (Keeps id rs) s j aborted now k
        (λ r e open' h.
          drain-Keeps id rs
            (record s { runs = insert j (ended_run r aborted now) s.runs; running = s.running - 1 })
            now (insert-Keeps id j rs (ended_run r aborted now) s (s.running - 1) d k))
        (λ r e open' h. insert-Keeps id j rs (ended_run r aborted now) s s.running d k)

  force-Keeps :
      (id j : String) (rs : RunState) (s : Service) (reason : Reason) (now : ℕ)
      → (j == id) ≡ false
      → Keeps id rs s
      → Keeps id rs (force_finalize_run s j reason now)
  force-Keeps id j rs s reason now d k =
      force_finalize_cases (Keeps id rs) (λ s ts k. k) s j reason now k
        λ r e can.
          finalize-Keeps id j rs (record s { runs = insert j (forced r reason) s.runs }) now d
            (insert-Keeps id j rs (forced r reason) s s.running d k)

  finalize-Absent :
      (id j : String) (s : Service) (now : ℕ)
      → Absent id s.queue
      → Absent id (finalize_locked s j aborted now).0.queue
  finalize-Absent id j s now a =
      finalize_cases (λ s. Absent id s.queue) s j aborted now a
        (λ r e open' h.
          drain-Absent id
            (record s { runs = insert j (ended_run r aborted now) s.runs; running = s.running - 1 })
            now a)
        (λ r e open' h. a)

  force-Absent :
      (id j : String) (s : Service) (reason : Reason) (now : ℕ)
      → Absent id s.queue
      → Absent id (force_finalize_run s j reason now).queue
  force-Absent id j s reason now a =
      force_finalize_cases (λ s. Absent id s.queue) (λ s ts k. k) s j reason now a
        λ r e can.
          finalize-Absent id j (record s { runs = insert j (forced r reason) s.runs }) now a

  pub abort_all-spares :
      (ids : List String) (id : String) (rs : RunState) (s : Service) (now : ℕ)
      → member id ids ≡ false
      → Keeps id rs s
      → lookup id (abort_all ids s now).runs ≡ some rs
  unfolding abort_all member
  abort_all-spares [] id rs s now m k = k.0
  abort_all-spares (j ∷ ids) id rs s now m k = elim (Bool-cases (j == id)) [
    | inl same ↦ absurd (ground (arith, m, same))
    | inr other ↦
        abort_all-spares ids id rs _ now (ground (arith, m, other))
          (force-Keeps id j rs s workers_disconnected now other k)
  ]

  force_over :
      (s : Service) (id : String) (reason : Reason) (now : ℕ) (rs : RunState)
      → lookup id s.runs ≡ some rs
      → is_forceable rs ≡ false
      → force_finalize_run s id reason now ≡ s
  unfolding force_finalize_run
  force_over s id reason now rs e h = ground (arith, e, h)

  abort_all-over :
      (ids : List String) (id : String) (rs : RunState) (s : Service) (now : ℕ)
      → is_forceable rs ≡ false
      → Keeps id rs s
      → lookup id (abort_all ids s now).runs ≡ some rs
  unfolding abort_all
  abort_all-over [] id rs s now f k = k.0
  abort_all-over (j ∷ ids) id rs s now f k = elim (Bool-cases (j == id)) [
    | inl same ↦
        let i : j ≡ id = (==_iff j id).0 same in
        let kept : force_finalize_run s j workers_disconnected now ≡ s =
          ap (λ x. force_finalize_run s x workers_disconnected now) i
          ∙ force_over s id workers_disconnected now rs k.0 f in
        abort_all-over ids id rs _ now f (subst (Keeps id rs) (sym kept) k)
    | inr other ↦
        abort_all-over ids id rs _ now f (force-Keeps id j rs s workers_disconnected now other k)
  ]

  -- What a watchdog's abort leaves of a run.
  abbrev pub aborted_run : RunState → ℕ → RunState
  aborted_run rs now = ended_run (forced rs workers_disconnected) aborted now

  aborted_run-over : (rs : RunState) (now : ℕ) → is_forceable (aborted_run rs now) ≡ false
  unfolding is_forceable ended_run
  aborted_run-over rs now = refl

  pub abort_all-ends :
      (ids : List String) (id : String) (rs : RunState) (s : Service) (now : ℕ)
      → member id ids ≡ true
      → is_forceable rs ≡ true
      → is_zero rs.ended_at ≡ true
      → Keeps id rs s
      → lookup id (abort_all ids s now).runs ≡ some (aborted_run rs now)
  unfolding abort_all member
  abort_all-ends [] id rs s now m f o k = absurd (ground (arith, m))
  abort_all-ends (j ∷ ids) id rs s now m f o k = elim (Bool-cases (j == id)) [
    | inl same ↦
        let i : id ≡ j = sym ((==_iff j id).0 same) in
        let ended : Keeps id (aborted_run rs now)
            (force_finalize_run s id workers_disconnected now) =
          (
            lookup-force_finalize_run s id workers_disconnected now rs k.1 k.0 f o,
            force-Absent id id s workers_disconnected now k.1,
          ) in
        abort_all-over ids id (aborted_run rs now) _ now (aborted_run-over rs now) (
          subst
            (λ x. Keeps id (aborted_run rs now) (force_finalize_run s x workers_disconnected now)) i
            ended)
    | inr other ↦
        abort_all-ends ids id rs _ now (ground (arith, m, other)) f o
          (force-Keeps id j rs s workers_disconnected now other k)
  ]
