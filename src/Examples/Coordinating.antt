-- ===== src/Examples/Coordinating.antt =====
-- The coordinator with one worker and one run.
use loadify.Prelude.{
  ◌+◌, ◌≤◌, ◌≡◌, refl, Option, ℕ, ◌⊎◌, List, [], ◌∷◌, ◌++◌, some, true, false, arith, length, drop,
  All, string_eq,
}
use loadify.Wire.{StartRunRequest, http, completed, ActiveRun}
use loadify.Dict.{lookup, total}
use loadify.Breaker.{not_acknowledged, workers_disconnected}
use loadify.Registry.{available, is_healthy, supports, supports_loop, available_loop}
use loadify.Registry
use loadify.Coordinator.State.{RunState, Service, member}
use loadify.Coordinator.State
use loadify.Coordinator.Dispatch.{dispatch, drain, can_dispatch, ok}
use loadify.Coordinator.Lifecycle.{
  start_run, stop_run, force_finalize_run, stopped_run, auto_stop_run,
}
use loadify.Coordinator.Watchdog.{
  present_workers, reap_loop, abort_all, reap_once, reap_run, any_present,
}
use loadify.Coordinator.Streams.{rehydrated, rehydrate_run}
use loadify.Coordinator.Slots.{Inv, held}
use loadify.Coordinator.Accounting.{stop_run-Inv}
use loadify.Coordinator.Events.{
  Step-Inv, limits, disconnects, initial, next, starts, stops, Reachable-Inv,
}
use loadify.Coordinator.Streams.{disconnect}
use loadify.Coordinator.State.{set_limits, stop_grace_ms}
use loadify.Coordinator.Orphans.{
  orphan_reaped, blip_survives, orphaned, visited, stepped, unwatched,
}
use loadify.Coordinator.Rehydration.{rehydrate_queued_overcounts}
use loadify.Coordinator.Queueing.{drain_order, started}
use loadify.Coordinator.Verdicts.{stop_queued_stays, auto_stop_rewrites}
use loadify.Wire.{aborted, queued}
use loadify.Coordinator.Ending.{fire_all, stop_then_force, stopped_and_forced}
use loadify.Examples.Fixture.{whole, registry, request, waiting, active, with_queue, with_run}

Reachable-Inv_example : Inv (stop_run (start_run (State.new true) request 100).0 "r1" true 200).0
Reachable-Inv_example =
    Reachable-Inv (next (next (initial true) (starts request 100)) (stops "r1" true 200))

with_run-Inv : Inv with_run
with_run-Inv = record { exact = refl; waiting = tt; unique = tt }

-- The service of the run without its worker.
abbrev alone : Service
alone = record with_run { reg = record registry { workers = [] } }

orphan_reaped_example :
    lookup "r1" (reap_once (set_limits (reap_once alone 0) 3 85 85) 31_000).runs
    ≡ some (orphaned active 0 31_000)
unfolding any_present member lookup present_workers Registry.list reap_once reap_loop abort_all
    reap_run set_limits
orphan_reaped_example =
    orphan_reaped alone (set_limits (reap_once alone 0) 3 85 85) "r1" active [] 0 [] 31_000
      with_run-Inv refl refl refl refl refl refl refl tt
      (visited 0 (refl, tt) (stepped (limits 3 85 85) refl unwatched)) refl (omega arith)

blip_survives_example :
    (lost : Option ℕ) × (lookup "r1" (reap_once (disconnect (reap_once with_run 5) "w1" 1) 6).runs
      ≡ some (record active { workers_lost_at = lost }))
unfolding any_present member lookup present_workers Registry.list reap_once reap_loop abort_all
    reap_run disconnect Registry.remove loadify.Dict.delete
blip_survives_example =
    blip_survives with_run (reap_once (disconnect (reap_once with_run 5) "w1" 1) 6) "r1" active
      ("w1" ∷ []) 5 (([], 6) ∷ []) with_run-Inv refl refl refl ((omega arith, omega arith), tt)
      (visited 5 (refl, tt) (stepped (disconnects "w1" 1) refl (visited 6 (refl, tt) unwatched)))

abbrev active_report : ActiveRun
active_report = record { run_id = "r1"; protocol = http }

rehydrate_queued_overcounts_example :
    let s1 = rehydrate_run with_queue "w1" active_report 0 in
    let s2 = (dispatch s1 request 10).0 in
    (lookup "r1" s1.runs ≡ some (rehydrated with_queue "w1" active_report 0))
    × ((rehydrated with_queue "w1" active_report 0).slot_held ≡ true)
    × (s1.queue ≡ request ∷ [])
    × (s2.running ≡ total held s2.runs + 1)
unfolding rehydrate_run dispatch lookup available is_healthy supports Registry.cpu_utilization
    Registry.mem_utilization loadify.Coordinator.Dispatch.store_dispatched
    loadify.Coordinator.Dispatch.assign_loop loadify.Scheduler.pick_workers State.try_send
    State.add_member member
rehydrate_queued_overcounts_example =
    rehydrate_queued_overcounts with_queue "w1" active_report request waiting [] [] 0 10 1 refl refl
      refl refl refl refl refl

drain_order_example :
    (taken : List StartRunRequest) × (with_queue.queue ≡ taken ++ (drain with_queue 10).queue)
    × ((drain with_queue 10).running ≡ with_queue.running + length taken)
    × (((drain with_queue 10).running ≤ with_queue.running)
        ⊎ ((drain with_queue 10).running ≤ with_queue.max_runs))
    × All (λ req. started (lookup req.run_id (drain with_queue 10).runs) ≡ true) taken
drain_order_example = drain_order with_queue 10

stop_then_force_example :
    let t = (stop_run with_run "r1" true 50).0 in
    lookup "r1" (fire_all (drop 0 t.timers) 7 (set_limits t 3 85 85)).runs
    ≡ some (stopped_and_forced active 50 (50 + stop_grace_ms + 7))
unfolding lookup set_limits
stop_then_force_example =
    stop_then_force with_run (set_limits (stop_run with_run "r1" true 50).0 3 85 85) "r1" true 50 7
      active with_run-Inv
      (Step-Inv {s = (stop_run with_run "r1" true 50).0} (limits 3 85 85)
        (stop_run-Inv with_run "r1" true 50 with_run-Inv))
      refl refl refl refl refl

stop_queued_stays_example :
    let t = force_finalize_run (stop_run with_queue "r1" true 50).0 "r1" not_acknowledged 8050 in
    (t.queue ≡ with_queue.queue)
    × (lookup "r1" t.runs ≡ some (stopped_run waiting 50))
    × ((stopped_run waiting 50).status ≡ queued)
unfolding lookup
stop_queued_stays_example =
    stop_queued_stays with_queue "r1" true not_acknowledged 50 8050 waiting refl refl refl

abbrev over : RunState
over = record active { status = completed; ended_at = some 40; slot_held = false }

abbrev with_over : Service
with_over = record with_run { runs = ("r1", over) ∷ []; running = 0 }

auto_stop_rewrites_example :
    (rs' : RunState) × (lookup "r1" (auto_stop_run with_over "r1" workers_disconnected 60).runs
      ≡ some rs')
    × (rs'.status ≡ aborted)
    × (rs'.reason ≡ workers_disconnected)
    × (rs'.ended_at ≡ some 40)
unfolding lookup
auto_stop_rewrites_example = auto_stop_rewrites with_over "r1" workers_disconnected 60 over refl
