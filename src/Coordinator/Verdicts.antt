-- ===== src/Coordinator/Verdicts.antt =====
-- What a stop makes of a run that waits in the queue, and of one that has ended.
use loadify.Prelude.{ℕ, ◌≡◌, refl, ap, ◌∙◌, Bool, true, false, String, some, arith, string_eq}
use loadify.Platform.{Platform}
use loadify.Wire.{aborted, queued}
use loadify.Dict.{lookup, insert}
use loadify.Breaker.{Reason}
use loadify.Coordinator.State.{RunState, Service}
use loadify.Coordinator.Lifecycle.{
  stop_run, stopped_run, force_finalize_run, is_forceable, auto_stop_run,
}
use loadify.Coordinator.Ending.{lookup-stop_run, lookup-insert_same}

module _ ⦃p : Platform⦄ where
  force_unheld :
      (s : Service) (id : String) (reason : Reason) (now : ℕ) (rs : RunState)
      → lookup id s.runs ≡ some rs
      → rs.slot_held ≡ false
      → force_finalize_run s id reason now ≡ s
  unfolding force_finalize_run is_forceable
  force_unheld s id reason now rs e h = ground (arith, e, h)

  stop_run-queue :
      (s : Service) (id : String) (graceful : Bool) (now : ℕ) (rs : RunState)
      → lookup id s.runs ≡ some rs
      → (stop_run s id graceful now).0.queue ≡ s.queue
  unfolding stop_run
  stop_run-queue s id graceful now rs e = ground (arith, e)

  stopped_run-queued :
      (rs : RunState) (now : ℕ)
      → rs.status ≡ queued
      → ((stopped_run rs now).status ≡ queued) × ((stopped_run rs now).slot_held ≡ rs.slot_held)
  unfolding stopped_run
  stopped_run-queued rs now h = simp h (refl, refl)

  -- A run that waits in the queue without a slot stays there when it is stopped, also after the
  -- stop's grace has passed: the queue is the same, and the stored run is still queued.
  pub stop_queued_stays :
      (s : Service) (id : String) (graceful : Bool) (reason : Reason) (now later : ℕ)
      (rs : RunState)
      → lookup id s.runs ≡ some rs
      → rs.status ≡ queued
      → rs.slot_held ≡ false
      → let t = force_finalize_run (stop_run s id graceful now).0 id reason later in
        (t.queue ≡ s.queue)
        × (lookup id t.runs ≡ some (stopped_run rs now))
        × ((stopped_run rs now).status ≡ queued)
  stop_queued_stays s id graceful reason now later rs e st h =
      let found = lookup-stop_run s id graceful now rs e in
      let (kept, unheld) = stopped_run-queued rs now st in
      let same =
        force_unheld (stop_run s id graceful now).0 id reason later (stopped_run rs now) found
          (unheld ∙ h) in
      (
        ap (λ t. t.queue) same ∙ stop_run-queue s id graceful now rs e,
        ap (λ t. lookup id t.runs) same ∙ found,
        kept,
      )

  stopped_run-aborted :
      (rs : RunState) (reason : Reason) (now : ℕ)
      → let rs' = stopped_run (record rs { status = aborted; reason = reason }) now in
        (rs'.status ≡ aborted) × (rs'.reason ≡ reason) × (rs'.ended_at ≡ rs.ended_at)
  unfolding stopped_run
  stopped_run-aborted rs reason now = (refl, refl, refl)

  -- The breaker's callback makes any stored run aborted, with the breaker's reason, also one that
  -- has ended with another verdict, whose end time stays.
  pub auto_stop_rewrites :
      (s : Service) (id : String) (reason : Reason) (now : ℕ) (rs : RunState)
      → lookup id s.runs ≡ some rs
      → (rs' : RunState) × (lookup id (auto_stop_run s id reason now).runs ≡ some rs')
        × (rs'.status ≡ aborted)
        × (rs'.reason ≡ reason)
        × (rs'.ended_at ≡ rs.ended_at)
  unfolding auto_stop_run
  auto_stop_rewrites s id reason now rs e =
      let rs1 = record rs { status = aborted; reason = reason } in
      let s1 = record s { runs = insert id rs1 s.runs } in
      let (status', reason', ended') = stopped_run-aborted rs reason now in
      (
        stopped_run rs1 now,
        rw (e, auto_stop_run)
            (lookup-stop_run s1 id true now rs1 (lookup-insert_same id rs1 s.runs)),
        status',
        reason',
        ended',
      )
