-- ===== src/Runs/Reaping.antt =====
-- internal/apisrv/handlers.go: the reaper, which reconciles the runs that have not ended with what
-- the coordinator says of them, and replays a run that a restarted coordinator has lost.
use loadify.Prelude.{
  ℕ, ◌-◌, ◌*◌, Bytes, Bool, true, false, String, Option, none, some, List, [], ◌∷◌, ltb, is_nil,
  if◌then◌else◌, string_eq, ◌==◌,
}
use loadify.Platform.{Platform, float}
use loadify.Plan.{AlertConfig}
use loadify.Wire.{RunStatus, StartRunRequest}
use loadify.Coordinator.Queries.{RunReport}
use loadify.Coordinator.Dispatch.{Result, ok, err}
use loadify.Runs.{
  Status, queued, running, completed, aborted, Run, get_run_dispatch, set_run_running,
  set_run_status, list_active_runs,
}
use loadify.Wire
use loadify.Runs.Finalizing.{Remote, Server, finalize_run}

module _ ⦃p : Platform⦄ where
  -- plan.AlertConfig{}
  abbrev pub no_alert_config : AlertConfig
  no_alert_config = record {
    enabled = none;
    error_rate_pct = float 0;
    window_sec = 0;
    min_requests = 0;
  }

  -- replayDispatch: behind the coordinator's reply, behind the payload, and as a whole; `none` is
  -- `false`.
  unfoldable pub replayed : Server → String → ℕ → Result String → Option Server
  replayed s id now (err e) = none
  replayed s id now (ok status) =
      if status == "running"
      then some (record s {
        pg = set_run_running s.pg id now;
        watchers = (id, no_alert_config) ∷ s.watchers;
      })
      else some (record s { pg = set_run_status s.pg id queued })

  unfoldable pub replay_request :
      Server → Remote → String → ℕ → Option StartRunRequest → Option Server
  unfolding replayed
  replay_request s remote id now none = none
  replay_request s remote id now (some req) = replayed s id now (remote.start_run req)

  unfoldable pub replay_payload : Server → Remote → String → ℕ → Option Bytes → Option Server
  unfolding replay_request
  replay_payload s remote id now none = none
  replay_payload s remote id now (some payload) =
      if is_nil payload then none else replay_request s remote id now (remote.unmarshal payload)

  unfoldable pub replay_dispatch : Server → Remote → String → ℕ → Option Server
  unfolding replay_payload
  replay_dispatch s remote id now = replay_payload s remote id now (get_run_dispatch s.pg id)

  -- finalizeForgotten
  unfoldable pub has_metrics : Remote → String → Bool
  has_metrics remote id =
      let a = remote.summary_of id in elim a.error [ none ↦ ltb 0 a.total | some e ↦ false ]

  unfoldable pub finalize_forgotten : Server → Remote → String → ℕ → Server
  unfolding has_metrics
  finalize_forgotten s remote id now =
      if has_metrics remote id
      then finalize_run s remote id completed now
      else finalize_run s remote id aborted now

  -- The body of reapOnce's loop: where GetRunState fails, by the status that it reports, and as a
  -- whole.
  unfoldable pub recover : Server → Remote → String → ℕ → Option Server → Server
  unfolding finalize_forgotten
  recover s remote id now none = finalize_forgotten s remote id now
  recover s remote id now (some t) = t

  abbrev pub is_running_row : Status → Bool
  is_running_row running = true
  is_running_row _ = false

  unfoldable pub reconcile : Server → Remote → String → Run → Bool → ℕ → RunStatus → Server
  reconcile s remote id r overdue now Wire.RunStatus.completed =
      finalize_run s remote id completed now
  reconcile s remote id r overdue now Wire.RunStatus.running =
      if is_running_row r.status then s else record s { pg = set_run_running s.pg id now }
  reconcile s remote id r overdue now Wire.RunStatus.queued =
      if overdue then finalize_run s remote id aborted now else s
  reconcile s remote id r overdue now _ =
      if overdue then finalize_run s remote id aborted now else s

  unfoldable pub reap_reported :
      Server → Remote → String → Run → Bool → ℕ → Result RunReport → Server
  unfolding recover replay_dispatch reconcile
  reap_reported s remote id r overdue now (err e) =
      recover s remote id now (replay_dispatch s remote id now)
  reap_reported s remote id r overdue now (ok st) = reconcile s remote id r overdue now st.status

  unfoldable pub reap_run : Server → Remote → ℕ → ℕ → String × Run → Server
  unfolding reap_reported
  reap_run s remote max_age now (id, r) =
      let overdue = ltb max_age (now - r.created_at) in
      if ltb (now - r.created_at) (15 * 1000000000)
      then s
      else reap_reported s remote id r overdue now (remote.run_state id)

  unfoldable pub reap_loop : Server → Remote → ℕ → ℕ → List (String × Run) → Server
  reap_loop s remote max_age now [] = s
  reap_loop s remote max_age now (r ∷ runs) =
      reap_loop (reap_run s remote max_age now r) remote max_age now runs

  unfoldable pub reap_listed : Server → Remote → ℕ → ℕ → Option (List (String × Run)) → Server
  unfolding reap_loop
  reap_listed s remote max_age now none = s
  reap_listed s remote max_age now (some runs) = reap_loop s remote max_age now runs

  -- reapOnce
  unfoldable pub reap_once : Server → Remote → ℕ → ℕ → Server
  unfolding reap_listed
  reap_once s remote max_age now = reap_listed s remote max_age now (list_active_runs s.pg)
