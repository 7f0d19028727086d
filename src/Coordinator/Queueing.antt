-- ===== src/Coordinator/Queueing.antt =====
-- The drain of the admission queue: first in, first out, within the limit on concurrent runs.
use loadify.Prelude.{
  ℕ, ◌+◌, ◌≤◌, ◌<◌, ◌≡◌, refl, ap, ◌∙◌, ◌⊎◌, inl, inr, Bool, true, false, ◌&&◌, String, List, [],
  ◌∷◌, ◌++◌, Option, none, some, arith, All, length, string_eq, ==_iff, Bool-cases,
}
use loadify.Platform.{Platform}
use loadify.Wire.{StartRunRequest, Protocol}
use loadify.Dict.{lookup, insert, lookup-insert}
use loadify.Registry.Admission.{available_any_protocol}
use loadify.Coordinator.State.{RunState, Service, is_running}
use loadify.Coordinator.Dispatch.{
  dispatch, dispatched, drain_loop, drain, can_dispatch, is_empty, store_dispatched,
}
use loadify.Coordinator.Queries.{get_capacity}
use loadify.Registry.{available}
use loadify.Coordinator.Slots.{attempt, List-cases, Runs, Absent, dispatch_cases, fails, starts}

module _ ⦃p : Platform⦄ where
  -- A run is stored, runs, and holds a slot.
  abbrev pub started : Option RunState → Bool
  started none = false
  started (some rs) = is_running rs.status && rs.slot_held

  dispatched-started :
      (s : Service) (req : StartRunRequest) (assigned : List String) (now : ℕ)
      → started (some (dispatched s req assigned now)) ≡ true
  unfolding dispatched
  dispatched-started s req assigned now = unfold loadify.Coordinator.State.fresh_run in refl

  started-insert :
      (id j : String) (rs : RunState) (runs : Runs)
      → started (some rs) ≡ true
      → started (lookup j runs) ≡ true
      → started (lookup j (insert id rs runs)) ≡ true
  started-insert id j rs runs h k = ground (arith, lookup-insert id j rs runs, h, k)

  -- What a drain does to the requests of a queue.
  record Drained (queue : List StartRunRequest) (s t : Service) : Type 0 where
    taken : List StartRunRequest
    split : queue ≡ taken ++ t.queue
    counted : t.running ≡ s.running + length taken
    limited : (t.running ≤ s.running) ⊎ (t.running ≤ s.max_runs)
    all_started : All (λ req. started (lookup req.run_id t.runs) ≡ true) taken
    kept : (j : String) → started (lookup j s.runs) ≡ true → started (lookup j t.runs) ≡ true
    others : (j : String) → Absent j queue → lookup j t.runs ≡ lookup j s.runs

  dispatch-max_runs :
      (s : Service) (req : StartRunRequest) (now : ℕ) → (dispatch s req now).0.max_runs ≡ s.max_runs
  unfolding dispatch store_dispatched
  dispatch-max_runs s req now =
      let cs = available s.reg req.protocol s.cpu_max s.mem_max now in
      elim (Bool-cases (is_empty cs)) [
        | inl nobody ↦ ground (arith, nobody)
        | inr some_worker ↦ elim (List-cases (attempt s req now).0) [
          | inl none_sent ↦ ground (arith, some_worker, none_sent)
          | inr (a, rest, sent) ↦ ground (arith, some_worker, sent)
        ]
      ]

  can_dispatch-lt :
      (s : Service) (proto : Protocol) (now : ℕ)
      → can_dispatch s proto now ≡ true
      → s.running < s.max_runs
  unfolding can_dispatch
  can_dispatch-lt s proto now h = ground arith

  -- Nothing is taken, and the runs stay as they are.
  Drained-none :
      (queue : List StartRunRequest) (s t : Service)
      → t.runs ≡ s.runs
      → t.running ≡ s.running
      → Drained queue s (record t { queue = queue })
  Drained-none queue s t runs' running' = record {
    taken = [];
    split = refl;
    counted = omega arith;
    limited = inl (omega arith);
    all_started = tt;
    kept = λ j h. simp runs' h;
    others = λ j h. ap (λ runs. lookup j runs) runs';
  }

  -- One run more is started, for a request taken from the front.
  Drained-cons :
      (req : StartRunRequest) (rest : List StartRunRequest) (s m t : Service) (rs : RunState)
      → m.runs ≡ insert req.run_id rs s.runs
      → m.running ≡ s.running + 1
      → m.max_runs ≡ s.max_runs
      → s.running < s.max_runs
      → started (some rs) ≡ true
      → Drained rest m t
      → Drained (req ∷ rest) s t
  Drained-cons req rest s m t rs runs' running' limit' below begun d = record {
    taken = req ∷ d.taken;
    split = ap (λ q. req ∷ q) d.split;
    counted = ground (arith, d.counted);
    limited = inr (ground (arith, d.limited, limit', running', below));
    all_started = (
      d.kept req.run_id (
          simp runs' (
            ground (
              arith,
              lookup-insert req.run_id req.run_id rs s.runs,
              ==_iff req.run_id req.run_id,
              begun,
            ))),
      d.all_started,
    );
    kept = λ j h. d.kept j (simp runs' (started-insert req.run_id j rs s.runs begun h));
    others = λ j h.
        d.others j h.1
        ∙ simp runs'
            (ground (arith, lookup-insert req.run_id j rs s.runs, ==_iff req.run_id j, h.0));
  }

  drain_loop-Drained :
      (queue : List StartRunRequest) (s : Service) (now : ℕ)
      → Drained queue s (drain_loop queue s now)
  unfolding drain_loop
  drain_loop-Drained [] s now = Drained-none [] s s refl refl
  drain_loop-Drained (req ∷ rest) s now =
      let s0 = record s { queue = rest } in
      elim (Bool-cases (can_dispatch s req.protocol now)) [
        | inl can ↦ elim (dispatch_cases s0 req now) [
          | fails e r runs' running' queue' ↦
              rw (can, drain_loop, r)
                (Drained-none (req ∷ rest) s (dispatch s0 req now).0 runs' running')
          | starts assigned r some_worker runs' running' queue' ↦
              rw (can, drain_loop, r)
                (Drained-cons req rest s (dispatch s0 req now).0 _ (dispatched s0 req assigned now)
                  runs' running' (dispatch-max_runs s0 req now)
                  (can_dispatch-lt s req.protocol now can) (dispatched-started s0 req assigned now)
                  (drain_loop-Drained rest (dispatch s0 req now).0 now))
        ]
        | inr cannot ↦ rw (cannot, drain_loop) (Drained-none (req ∷ rest) s s refl refl)
      ]

  -- The drain takes the requests at the front of the queue and leaves the others in their order;
  -- every run taken is stored, runs and holds a slot, and each takes one slot; the slots taken do
  -- not exceed the limit unless nothing was taken.
  pub drain_order :
      (s : Service) (now : ℕ)
      → let t = drain s now in
        (taken : List StartRunRequest) × (s.queue ≡ taken ++ t.queue)
        × (t.running ≡ s.running + length taken)
        × ((t.running ≤ s.running) ⊎ (t.running ≤ s.max_runs))
        × All (λ req. started (lookup req.run_id t.runs) ≡ true) taken
  unfolding drain
  drain_order s now =
      let d = drain_loop-Drained s.queue s now in
      (d.taken, d.split, d.counted, d.limited, d.all_started)

  -- The drain does not touch a run that is not in the queue.
  pub drain_untouched :
      (s : Service) (now : ℕ) (id : String)
      → Absent id s.queue
      → lookup id (drain s now).runs ≡ lookup id s.runs
  unfolding drain
  drain_untouched s now id a = (drain_loop-Drained s.queue s now).others id a

  -- If some protocol can be dispatched now, `GetCapacity` answers that a run is accepted.
  pub can_dispatch_can_accept :
      (s : Service) (proto : Protocol) (now : ℕ)
      → can_dispatch s proto now ≡ true
      → (get_capacity s now).can_accept ≡ true
  unfolding can_dispatch get_capacity
  can_dispatch_can_accept s proto now h =
      ground (arith, h, available_any_protocol s.reg proto s.cpu_max s.mem_max now)
