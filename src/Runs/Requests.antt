-- ===== src/Runs/Requests.antt =====
-- internal/apisrv/handlers.go: `canMutate`, and `launchRun` from the insertion of the run on;
-- internal/apisrv/auth.go: `handleStopRun` and `handleDeleteRun`.
use loadify.Prelude.{
  ℕ, Bytes, Bool, false, not, ◌||◌, String, Option, none, some, ◌∷◌, if◌then◌else◌, string_eq, ◌==◌,
}
use loadify.Platform.{Platform}
use loadify.Plan.{AlertConfig}
use loadify.Wire.{StartRunRequest}
use loadify.Auth.Tokens.{Claims}
use loadify.Coordinator.Dispatch.{Result, Error, ok, err}
use loadify.Coordinator.Dispatch
use loadify.Runs.{
  aborted, failed, queued, Run, Store, dispatch_failed, gone_from_coordinator, has_ended, get_run,
  create_run, set_run_running, set_run_status, set_run_dispatch, finish_run, delete_run,
}
use loadify.Runs.Finalizing.{Remote, Server, finalize_run_reason}

-- canMutate
unfoldable pub owns : Option String → String → Bool
owns none subject = false
owns (some owner) subject = owner == subject

unfoldable pub can_mutate : Option Claims → Option String → Bool
unfolding owns
can_mutate none owner = false
can_mutate (some c) owner = c.role == "admin" || owns owner c.subject

-- The answers of the handlers, by their HTTP status.
pub data Reply : Type 0 where
  not_found forbidden already_ended ended_now stopping service_unavailable : Reply
  conflict internal_error no_content : Reply

pub data Launched : Type 0 where
  error_of_store bad_script unavailable : Launched
  launched : (run_id status : String) → Launched

module _ ⦃p : Platform⦄ where
  -- handleStopRun: by the coordinator's answer, from the row on, and as a whole.
  unfoldable pub stop_answered : Server → Remote → String → ℕ → Result (Unit {0}) → Server × Reply
  stop_answered s remote id now (ok u) = (s, stopping)
  stop_answered s remote id now (err Dispatch.not_found) =
      (finalize_run_reason s remote id aborted gone_from_coordinator now, ended_now)
  stop_answered s remote id now (err _) = (s, service_unavailable)

  unfoldable pub stop_found :
      Server → Remote → Option Claims → String → ℕ → Option Run → Server × Reply
  unfolding stop_answered
  stop_found s remote caller id now none = (s, not_found)
  stop_found s remote caller id now (some r) =
      if not (can_mutate caller r.created_by)
      then (s, forbidden)
      else if has_ended r.status
      then (s, already_ended)
      else stop_answered (record s { stopped = id ∷ s.stopped }) remote id now (remote.stop_run id)

  unfoldable pub handle_stop_run : Server → Remote → Option Claims → String → ℕ → Server × Reply
  unfolding stop_found
  handle_stop_run s remote caller id now = stop_found s remote caller id now (get_run s.pg id)

  -- handleDeleteRun, in the same steps.
  unfoldable pub deleted : Server → Option Store → Server × Reply
  deleted s none = (s, internal_error)
  deleted s (some pg) = (record s { pg = pg }, no_content)

  unfoldable pub delete_row : Server → Option Claims → String → Option Run → Server × Reply
  unfolding deleted
  delete_row s caller id none = (s, not_found)
  delete_row s caller id (some r) =
      if not (can_mutate caller r.created_by)
      then (s, forbidden)
      else if not (has_ended r.status)
      then (s, conflict)
      else deleted (record s { purged = id ∷ s.purged }) (delete_run s.pg id)

  unfoldable pub handle_delete_run : Server → Option Claims → String → Server × Reply
  unfolding delete_row
  handle_delete_run s caller id = delete_row s caller id (get_run s.pg id)

  -- launchRun from CreateRun on, for a plan whose script compiles if `compiles`: by the reply of the
  -- coordinator, with the stored request, and as a whole.
  unfoldable pub undispatched : Server → Option (Store × Bool) → Server
  undispatched s none = s
  undispatched s (some done) = record s { pg = done.0 }

  unfoldable pub dispatch_answered :
      Server → String → AlertConfig → ℕ → Result String → Server × Launched
  unfolding undispatched
  dispatch_answered s id alert now (err e) =
      (undispatched s (finish_run s.pg id failed dispatch_failed now), unavailable)
  dispatch_answered s id alert now (ok status) =
      if status == "queued"
      then (record s { pg = set_run_status s.pg id queued }, launched id "queued")
      else (
        record s { pg = set_run_running s.pg id now; watchers = (id, alert) ∷ s.watchers },
        launched id "running",
      )

  unfoldable pub store_request : Server → String → Option Bytes → Server
  store_request s id none = s
  store_request s id (some payload) = record s { pg = set_run_dispatch s.pg id payload }

  unfoldable pub launch_created :
      Server
      → Remote
      → String
      → Bool
      → StartRunRequest
      → AlertConfig
      → ℕ
      → Option Store
      → Server × Launched
  unfolding dispatch_answered store_request
  launch_created s remote id compiles req alert now none = (s, error_of_store)
  launch_created s remote id compiles req alert now (some pg) =
      let created = record s { pg = pg } in
      if compiles
      then dispatch_answered (store_request created id (remote.marshal req)) id alert now
          (remote.start_run req)
      else (created, bad_script)

  unfoldable pub launch_run :
      Server → Remote → String → Run → Bool → StartRunRequest → AlertConfig → ℕ → Server × Launched
  unfolding launch_created
  launch_run s remote id r compiles req alert now =
      launch_created s remote id compiles req alert now (create_run s.pg id r)
