-- ===== src/Agent/Bookkeeping.antt =====
-- What an agent knows of its runs.
use loadify.Prelude.{
  ℕ, ◌≡◌, refl, sym, ap, ◌∙◌, Bool, true, false, ◌&&◌, ◌||◌, Option, none, some, List, [], ◌∷◌,
  String, string_eq, nat_eq, arith, Bool-cases, inl, inr, length, ltb,
}
use loadify.Platform.{Platform}
use loadify.Dict.{lookup, insert}
use loadify.Wire.{RunAssignment}
use loadify.Sampler.{flush}
use loadify.Coordinator.Streams.{WorkerMessage, metrics, finished}
use loadify.Agent.Booking.{Booked, update-IsBooked, end-IsBooked, start-IsBooked}
use loadify.Agent.Steps.{
  Step, starts, begins, abandons, iterates, ticks, puts, ends_flush, ends_run, stops, registers,
  beats, sends, with_task, step, run_steps, StartsFresh, AllStartFresh,
}
use loadify.Agent.{
  is_ended, Agent, Task, Phase, waiting, executing, ended, enqueue, finish_run, start_run,
  set_active, begin_run, is_cancelled, abandon_run, record_iteration, take_tick, put_batch,
  end_flush, end_run, stop_run, cancel_ctx, send_register, send_heartbeat, send_next, new_agent,
  FlushLoop, not_started, at_select, holds, returned,
}

module _ ⦃p : Platform⦄ where
  enqueue-Booked : (a : Agent) (m : WorkerMessage) → Booked a → Booked (enqueue a m)
  unfolding enqueue
  enqueue-Booked a m i = elim (Bool-cases (ltb (length a.send_ch) 256)) [
    | inl e ↦ rw (enqueue, e) i
    | inr e ↦ rw (enqueue, e) i
  ]

  enqueue-tasks : (a : Agent) (m : WorkerMessage) → (enqueue a m).tasks ≡ a.tasks
  unfolding enqueue
  enqueue-tasks a m = ground arith

  -- One operation of a task, by the phase or the flush loop that it meets.
  update-Booked :
      (a : Agent) (ctx : ℕ) (t u : Task)
      → Booked a
      → lookup ctx a.tasks ≡ some t
      → u.run_id ≡ t.run_id
      → is_ended u.phase ≡ is_ended t.phase
      → Booked (record a { tasks = insert ctx u a.tasks })
  update-Booked a = update-IsBooked a.runs a.run_protos a.tasks a.next_ctx

  begin_run-Booked :
      (a : Agent) (ctx : ℕ) (t : Task) (ph : Phase)
      → t.phase ≡ ph
      → Booked a
      → lookup ctx a.tasks ≡ some t
      → Booked (begin_run a ctx t ph)
  unfolding begin_run
  begin_run-Booked a ctx t waiting h i e =
      (update-Booked a ctx t (record t { phase = executing; flushing = at_select }) i e refl
        (ap is_ended (sym h)))
  begin_run-Booked a ctx t executing h i e = i
  begin_run-Booked a ctx t ended h i e = i

  abandon_run-Booked :
      (a : Agent) (ctx : ℕ) (t : Task) (ph : Phase)
      → t.phase ≡ ph
      → Booked a
      → lookup ctx a.tasks ≡ some t
      → Booked (abandon_run a ctx t ph)
  unfolding abandon_run finish_run
  abandon_run-Booked a ctx t waiting h i e = elim (Bool-cases (is_cancelled a ctx)) [
    | inl off ↦ rw off (
        end-IsBooked a.runs a.run_protos a.tasks a.next_ctx ctx t (record t { phase = ended }) i e
          refl (ap is_ended h) refl)
    | inr on ↦ rw on i
  ]
  abandon_run-Booked a ctx t executing h i e = i
  abandon_run-Booked a ctx t ended h i e = i

  take_tick-Booked :
      (a : Agent) (ctx : ℕ) (t : Task) (now : ℕ) (f : FlushLoop)
      → t.flushing ≡ f
      → Booked a
      → lookup ctx a.tasks ≡ some t
      → Booked (take_tick a ctx t f now)
  unfolding take_tick
  take_tick-Booked a ctx t now not_started h i e = i
  take_tick-Booked a ctx t now at_select h i e = (update-Booked a ctx t _ i e refl refl)
  take_tick-Booked a ctx t now (holds b) h i e = i
  take_tick-Booked a ctx t now returned h i e = i

  put_batch-Booked :
      (a : Agent) (ctx : ℕ) (t : Task) (f : FlushLoop)
      → t.flushing ≡ f
      → Booked a
      → lookup ctx a.tasks ≡ some t
      → Booked (put_batch a ctx t f)
  unfolding put_batch set_active
  put_batch-Booked a ctx t not_started h i e = i
  put_batch-Booked a ctx t at_select h i e = i
  put_batch-Booked a ctx t (holds b) h i e =
      let put : Agent = set_active a t.run_id b.active_vus in
      let sent : Agent = enqueue put (metrics b) in
      (update-Booked sent ctx t (record t { flushing = at_select })
        (enqueue-Booked put (metrics b) i) (ap (lookup ctx) (enqueue-tasks put (metrics b)) ∙ e)
        refl refl)
  put_batch-Booked a ctx t returned h i e = i

  end_flush-Booked :
      (a : Agent) (ctx : ℕ) (t : Task) (f : FlushLoop)
      → t.flushing ≡ f
      → Booked a
      → lookup ctx a.tasks ≡ some t
      → Booked (end_flush a ctx t f)
  unfolding end_flush
  end_flush-Booked a ctx t not_started h i e = i
  end_flush-Booked a ctx t at_select h i e =
      elim (Bool-cases (is_cancelled a ctx || is_ended t.phase)) [
        | inl over ↦
            rw over (update-Booked a ctx t (record t { flushing = returned }) i e refl refl)
        | inr going ↦ rw going i
      ]
  end_flush-Booked a ctx t (holds b) h i e = i
  end_flush-Booked a ctx t returned h i e = i

  end_run-Booked :
      (a : Agent) (ctx : ℕ) (t : Task) (iters now : ℕ) (ph : Phase)
      → t.phase ≡ ph
      → Booked a
      → lookup ctx a.tasks ≡ some t
      → Booked (end_run a ctx t ph iters now)
  unfolding end_run finish_run
  end_run-Booked a ctx t iters now waiting h i e = i
  end_run-Booked a ctx t iters now executing h i e =
      let (sampler, batch) = flush t.sampler now in
      let done : WorkerMessage = finished record {
        run_id = t.run_id;
        worker_id = a.worker_id;
        final_count = 0;
        dropped_iterations = iters;
        dropped_metrics = a.dropped_send;
      } in
      let swapped : Agent = record a { dropped_send = 0 } in
      let first : Agent = enqueue swapped (metrics batch) in
      let sent : Agent = enqueue first done in
      end-IsBooked sent.runs sent.run_protos sent.tasks sent.next_ctx ctx t
        (record t { phase = ended; sampler = sampler })
        (enqueue-Booked first done (enqueue-Booked swapped (metrics batch) i))
        (ap (lookup ctx) (enqueue-tasks first done ∙ enqueue-tasks swapped (metrics batch)) ∙ e)
        refl (ap is_ended h) refl
  end_run-Booked a ctx t iters now ended h i e = i

  start_run-Booked :
      (a : Agent) (asg : RunAssignment) (ready : Bool) (now : ℕ)
      → Booked a
      → lookup asg.run_id a.runs ≡ none
      → Booked (start_run a asg ready now)
  unfolding start_run
  start_run-Booked a asg false now i e = i
  start_run-Booked a asg true now i e =
      let waits = ltb 0 asg.start_at_unix_ms && ltb now asg.start_at_unix_ms in
      elim (Bool-cases waits) [
        | inl w ↦ rw w (
            start-IsBooked a.runs a.run_protos a.tasks a.next_ctx asg.run_id asg.protocol _ i e refl
              refl)
        | inr w ↦ rw w (
            start-IsBooked a.runs a.run_protos a.tasks a.next_ctx asg.run_id asg.protocol _ i e refl
              refl)
      ]

  cancel_ctx-Booked : (a : Agent) (o : Option ℕ) → Booked a → Booked (cancel_ctx a o)
  unfolding cancel_ctx
  cancel_ctx-Booked a none i = i
  cancel_ctx-Booked a (some ctx) i = i

  with_task-Booked :
      (a : Agent) (o : Option Task) (f : Task → Agent)
      → Booked a
      → ((t : Task) → o ≡ some t → Booked (f t))
      → Booked (with_task a o f)
  with_task-Booked a none f i g = i
  with_task-Booked a (some t) f i g = g t refl

  step-Booked : (a : Agent) (s : Step) → Booked a → StartsFresh a s → Booked (step a s)
  unfolding step stop_run send_register send_heartbeat send_next record_iteration
  step-Booked a (starts asg ready now) i f = start_run-Booked a asg ready now i f
  step-Booked a (begins ctx) i f =
      with_task-Booked a (lookup ctx a.tasks) _ i
        (λ t e. (begin_run-Booked a ctx t t.phase refl i e))
  step-Booked a (abandons ctx) i f =
      with_task-Booked a (lookup ctx a.tasks) _ i
        (λ t e. (abandon_run-Booked a ctx t t.phase refl i e))
  step-Booked a (iterates ctx r now) i f =
      with_task-Booked a (lookup ctx a.tasks) _ i (λ t e. (update-Booked a ctx t _ i e refl refl))
  step-Booked a (ticks ctx now) i f =
      with_task-Booked a (lookup ctx a.tasks) _ i
        (λ t e. (take_tick-Booked a ctx t now t.flushing refl i e))
  step-Booked a (puts ctx) i f =
      with_task-Booked a (lookup ctx a.tasks) _ i
        (λ t e. (put_batch-Booked a ctx t t.flushing refl i e))
  step-Booked a (ends_flush ctx) i f =
      with_task-Booked a (lookup ctx a.tasks) _ i
        (λ t e. (end_flush-Booked a ctx t t.flushing refl i e))
  step-Booked a (ends_run ctx iters now) i f =
      with_task-Booked a (lookup ctx a.tasks) _ i
        (λ t e. (end_run-Booked a ctx t iters now t.phase refl i e))
  step-Booked a (stops run_id) i f = cancel_ctx-Booked a (lookup run_id a.runs) i
  step-Booked a (registers cores) i f = enqueue-Booked a _ i
  step-Booked a (beats host) i f = enqueue-Booked a _ i
  step-Booked a sends i f = i

  run_steps-Booked :
      (a : Agent) (steps : List Step)
      → Booked a
      → AllStartFresh a steps
      → Booked (run_steps a steps)
  unfolding run_steps
  run_steps-Booked a [] i f = i
  run_steps-Booked a (s ∷ steps) i f = run_steps-Booked (step a s) steps (step-Booked a s i f.0) f.1

  -- Whatever the agent's goroutines do and in whatever order, as long as no run is assigned while
  -- the agent has one of that name: the runs that it would advertise to a coordinator are exactly
  -- those that it can cancel, and exactly those that it is executing or waiting to start.
  pub run_steps-new_agent-Booked :
      (worker_id region : String) (steps : List Step)
      → AllStartFresh (new_agent worker_id region) steps
      → Booked (run_steps (new_agent worker_id region) steps)
  unfolding new_agent lookup
  run_steps-new_agent-Booked worker_id region steps f =
      run_steps-Booked (new_agent worker_id region) steps
        (record {
          same_keys = λ id. refl;
          listed_live = λ id ctx h. ground (arith, h);
          live_listed = λ id ctx h. ground (arith, h);
          numbered = λ ctx h. ground (arith, h);
        })
        f
