-- ===== src/Coordinator/Watchdog.antt =====
-- internal/coordinator/service.go: `reapOnce`, which `Watchdog` calls every two seconds.
use loadify.Prelude.{
  ℕ, ◌-◌, Bool, true, false, not, ◌||◌, String, List, [], ◌∷◌, map, none, some, leb, if◌then◌else◌,
}
use loadify.Platform.{Platform}
use loadify.Breaker.{workers_disconnected}
use loadify.Registry.{Worker, WorkerInfo}
use loadify.Registry
use loadify.Coordinator.State.{RunState, Service, member, is_running, is_zero, orphan_grace_ms}
use loadify.Coordinator.Lifecycle.{force_finalize_run}

module _ ⦃p : Platform⦄ where
  -- The ids that the registry lists, whatever their health.
  unfoldable pub present_workers : Service → ℕ → List String
  present_workers s now = map (λ i. i.worker.id) (Registry.list s.reg now)

  unfoldable pub any_present : List String → List String → Bool
  any_present present [] = false
  any_present present (id ∷ ids) =
      let rest = any_present present ids in if member id present then true else rest

  abbrev pub no_workers : List String → Bool
  no_workers [] = true
  no_workers (id ∷ ids) = false

  -- The body of the loop over the runs: the run, and whether it is orphaned.
  unfoldable pub reap_run : List String → ℕ → RunState → RunState × Bool
  reap_run present now rs =
      if not (is_running rs.status) || not (is_zero rs.ended_at) || no_workers rs.assigned
      then (record rs { workers_lost_at = none }, false)
      else if any_present present rs.assigned
      then (record rs { workers_lost_at = none }, false)
      else elim rs.workers_lost_at [
        | none ↦ (record rs { workers_lost_at = some now }, false)
        | some lost ↦ (rs, leb orphan_grace_ms (now - lost))
      ]

  -- The loop over the runs: the runs, and the ids of the orphaned ones.
  unfoldable pub reap_loop :
      List String → ℕ → List (String × RunState) → List (String × RunState) × List String
  reap_loop present now [] = ([], [])
  reap_loop present now ((id, rs) ∷ runs) =
      let (rs', orphaned) = reap_run present now rs in
      let (runs', ids) = reap_loop present now runs in
      ((id, rs') ∷ runs', if orphaned then id ∷ ids else ids)

  unfoldable pub abort_all : List String → Service → ℕ → Service
  abort_all [] s now = s
  abort_all (id ∷ ids) s now = abort_all ids (force_finalize_run s id workers_disconnected now) now

  -- reapOnce
  unfoldable pub reap_once : Service → ℕ → Service
  unfolding reap_loop abort_all
  reap_once s now =
      let (runs, ids) = reap_loop (present_workers s now) now s.runs in
      abort_all ids (record s { runs = runs }) now
