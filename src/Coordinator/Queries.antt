-- ===== src/Coordinator/Queries.antt =====
-- internal/coordinator/service.go and runner.go: what the control API reports.
use loadify.Prelude.{
  ℕ, zero, suc, ◌+◌, ◌-◌, Bool, ◌&&◌, String, List, [], ◌∷◌, Option, none, some, ltb, eqb,
  if◌then◌else◌, length, get_or, string_eq, ◌==◌,
}
use loadify.Platform.{Platform, Float}
use loadify.Wire.{RunStatus, unspecified, StartRunRequest}
use loadify.Dict.{lookup, insert}
use loadify.Aggregator.{sort, subscribe}
use loadify.Breaker.{Reason}
use loadify.Registry.{WorkerInfo, available, healthy}
use loadify.Registry
use loadify.Coordinator.State.{RunState, Service, remaining_ms, member, is_running, is_queued}
use loadify.Coordinator.Dispatch.{Result, ok, err, not_found, unavailable}

module _ ⦃p : Platform⦄ where
  unfoldable pub remaining_loop : List (String × RunState) → ℕ → List ℕ
  remaining_loop [] now = []
  remaining_loop ((id, rs) ∷ runs) now =
      let rest = remaining_loop runs now in
      if is_running rs.status then remaining_ms rs now ∷ rest else rest

  -- queueETALocked
  unfoldable pub queue_eta : Service → ℕ → ℕ → ℕ
  unfolding remaining_loop
  queue_eta s zero now = 0
  queue_eta s (suc pos) now =
      let rem : List ℕ = sort (remaining_loop s.runs now) in
      let n = length rem in
      if eqb n 0 then 0 else get_or rem ((if ltb n (suc pos) then n else suc pos) - 1) 0

  -- The loop of queuePositionLocked, from index `i` on.
  unfoldable pub position_loop : List StartRunRequest → String → ℕ → ℕ
  position_loop [] id i = 0
  position_loop (req ∷ queue) id i =
      let rest = position_loop queue id (i + 1) in if req.run_id == id then i + 1 else rest

  unfoldable pub queue_position : Service → String → ℕ
  unfolding position_loop
  queue_position s id = position_loop s.queue id 0

  pub record CapacitySnapshot : Type 0 where
    pub max_runs : ℕ
    pub running : ℕ
    pub queue_depth : ℕ
    pub workers_total : ℕ
    pub workers_available : ℕ
    pub cpu_max_pct : Float
    pub mem_max_pct : Float
    pub can_accept : Bool

  -- GetCapacity
  unfoldable pub get_capacity : Service → ℕ → CapacitySnapshot
  get_capacity s now =
      let avail = length (available s.reg unspecified s.cpu_max s.mem_max now) in
      record {
        max_runs = s.max_runs;
        running = s.running;
        queue_depth = length s.queue;
        workers_total = length (healthy s.reg unspecified now);
        workers_available = avail;
        cpu_max_pct = s.cpu_max;
        mem_max_pct = s.mem_max;
        can_accept = ltb s.running s.max_runs && ltb 0 avail;
      }

  -- The protocol buffer RunState; a time that is not set is `none`. `active_workers` is the
  -- difference of two numbers, which the code lets fall below 0.
  pub record RunReport : Type 0 where
    pub run_id : String
    pub status : RunStatus
    pub active_vus : ℕ
    pub started_at : Option ℕ
    pub ended_at : Option ℕ
    pub workers_assigned : ℕ
    pub workers_finished : ℕ
    pub reason : Reason
    pub dropped_iterations : ℕ
    pub dropped_metrics : ℕ
    pub peak_cpu_pct : Float
    pub queue_position : ℕ
    pub queue_eta_ms : ℕ

  -- The loop of GetRunState over the workers.
  unfoldable pub active_vus_loop : List WorkerInfo → List String → ℕ
  active_vus_loop [] assigned = 0
  active_vus_loop (i ∷ infos) assigned =
      (if member i.worker.id assigned then i.worker.stats.active_vus else 0)
      + active_vus_loop infos assigned

  -- GetRunState with toProto
  unfoldable pub get_run_state : Service → String → ℕ → Result RunReport
  get_run_state s id now = elim (lookup id s.runs) [
    | none ↦ err not_found
    | some rs ↦
        let pos : ℕ = if is_queued rs.status then queue_position s id else 0 in
        ok (record {
          run_id = rs.run_id;
          status = rs.status;
          active_vus = active_vus_loop (Registry.list s.reg now) rs.assigned;
          started_at = rs.started_at;
          ended_at = rs.ended_at;
          workers_assigned = length rs.assigned;
          workers_finished = length rs.finished;
          reason = rs.reason;
          dropped_iterations = rs.dropped_iterations;
          dropped_metrics = rs.dropped_metrics;
          peak_cpu_pct = rs.peak_cpu_pct;
          queue_position = pos;
          queue_eta_ms = if is_queued rs.status then queue_eta s pos now else 0;
        })
  ]

  -- ListWorkers
  unfoldable pub list_workers : Service → ℕ → List WorkerInfo
  list_workers s now = Registry.list s.reg now

  -- StreamLive up to its loop: the subscription.
  unfoldable pub stream_live : Service → String → Service × Result (Unit {0})
  stream_live s id = elim (lookup id s.runs) [
    | none ↦ (s, err not_found)
    | some rs ↦ elim rs.agg [
      | none ↦ (s, err unavailable)
      | some agg ↦
          (record s { runs = insert id (record rs { agg = some (subscribe agg) }) s.runs }, ok tt)
    ]
  ]
