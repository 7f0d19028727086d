-- ===== src/Runs/Guards.antt =====
-- Who may end or delete a run, and what the reaper does while the coordinator does not answer.
use loadify.Prelude.{
  ℕ, ◌+◌, ◌-◌, ◌*◌, ◌≤◌, ◌≡◌, ◌↔◌, refl, ap, sym, ◌∙◌, subst, Bool, true, false, not, ◌&&◌, String,
  Option, none, some, ◌∷◌, Bytes, [], arith, if◌then◌else◌, string_eq, ==_iff, ltb,
}
use loadify.Platform.{Platform}
use loadify.Auth.Tokens.{Claims}
use loadify.Breaker.{none_given}
use loadify.Coordinator.Queries.{RunReport}
use loadify.Wire.{StartRunRequest}
use loadify.Dict.{lookup, insert, lookup-delete}
use loadify.Coordinator.Dispatch
use loadify.Coordinator.Dispatch.{Result, Error, ok, err}
use loadify.Runs.{
  Run, Summary, finalized, Store, Status, completed, aborted, EndReason, reported, has_ended,
  finished_row, get_run, finish_run, finish_found, get_run_dispatch, delete_run, delete_found,
}
use loadify.Runs.Finalizing.{
  Remote, Server, Notice, notified, final_status, finalize_run_reason, finalize_run, payload_of,
}
use loadify.Runs.Reaping.{
  reap_run, reap_reported, recover, replay_dispatch, replay_payload, replay_request, replayed,
  finalize_forgotten, has_metrics,
}
use loadify.Runs.Requests.{
  can_mutate, handle_delete_run, delete_row, deleted, handle_stop_run, stop_found, stop_answered,
}
use loadify.Runs.Ending.{lookup-insert_same}
use loadify.Runs.Ending.Finalizations.{final_status-ended}

module _ ⦃p : Platform⦄ where
  -- The row of a deleted run is gone, and one that is kept is as it was.
  delete_row-none :
      (s : Server) (caller : Option Claims) (id : String) (r : Run) (may over : Bool)
      → s.pg.up ≡ true
      → lookup id s.pg.runs ≡ some r
      → can_mutate caller r.created_by ≡ may
      → has_ended r.status ≡ over
      → (lookup id (delete_row s caller id (some r)).0.pg.runs ≡ none)
        ↔ ((may ≡ true) × (over ≡ true))
  unfolding delete_row delete_run get_run delete_found deleted
  delete_row-none s caller id r may over up found m o =
      ground (arith, up, found, m, o, lookup-delete id id s.pg.runs, ==_iff id id)

  -- While the database answers, a request to delete a run removes its row exactly if the caller is
  -- an administrator or the run's creator and the run has ended.
  pub handle_delete_run_lem :
      (s : Server) (caller : Option Claims) (id : String) (r : Run)
      → s.pg.up ≡ true
      → lookup id s.pg.runs ≡ some r
      → (lookup id (handle_delete_run s caller id).0.pg.runs ≡ none)
        ↔ ((can_mutate caller r.created_by ≡ true) × (has_ended r.status ≡ true))
  unfolding handle_delete_run get_run
  handle_delete_run_lem s caller id r up found =
      let row : get_run s.pg id ≡ some r = ground (arith, up, found) in
      subst
        (λ o.
          (lookup id (delete_row s caller id o).0.pg.runs ≡ none)
          ↔ ((can_mutate caller r.created_by ≡ true) × (has_ended r.status ≡ true)))
        (sym row) (delete_row-none s caller id r _ _ up found refl refl)

  finish_run_done :
      (pg : Store) (id : String) (r : Run) (status : Status) (summary : Summary) (now : ℕ)
      → pg.up ≡ true
      → lookup id pg.runs ≡ some r
      → has_ended r.status ≡ false
      → finish_run pg id status summary now
        ≡ some (record pg { runs = insert id (finished_row status summary now r) pg.runs }, true)
  unfolding finish_run finish_found
  finish_run_done pg id r status summary now up found live = ground (arith, up, found, live)

  -- What a finalization makes of a run that has not ended, while the database answers.
  unfoldable pub Ended : Server → String → Type 0
  Ended s id = (q : Run) × (lookup id s.pg.runs ≡ some q) × (has_ended q.status ≡ true)

  finalize-Ended :
      (s : Server) (remote : Remote) (id : String) (r : Run) (status : Status) (reason : EndReason)
      (now : ℕ)
      → s.pg.up ≡ true
      → lookup id s.pg.runs ≡ some r
      → has_ended r.status ≡ false
      → has_ended status ≡ true
      → Ended (finalize_run_reason s remote id status reason now) id
  unfolding finalize_run_reason notified Ended finished_row
  finalize-Ended s remote id r status reason now up found live over =
      let payload = payload_of s.pg remote id reason now in
      let status' = final_status status payload.verdict in
      let note : Notice = record { run_id = id; status = status'; payload = payload } in
      let q = finished_row status' (finalized payload) now r in
      let done = finish_run_done s.pg id r status' (finalized payload) now up found live in
      subst (λ o. Ended (notified s note o) id) (sym done)
        (q, lookup-insert_same id q s.pg.runs, final_status-ended status payload.verdict over)

  replayed-err :
      (s : Server) (id : String) (now : ℕ) (reply : Result String) (e : Error)
      → reply ≡ err e
      → replayed s id now reply ≡ none
  unfolding replayed
  replayed-err s id now reply e h = ap (replayed s id now) h

  -- No request is replayed while the coordinator answers no StartRun.
  not_requested :
      (s : Server) (remote : Remote) (id : String) (now : ℕ) (e : Error)
      (req : Option StartRunRequest)
      → ((q : StartRunRequest) → remote.start_run q ≡ err e)
      → replay_request s remote id now req ≡ none
  unfolding replay_request
  not_requested s remote id now e none down = refl
  not_requested s remote id now e (some req) down =
      replayed-err s id now (remote.start_run req) e (down req)

  not_replayed :
      (s : Server) (remote : Remote) (id : String) (now : ℕ) (e : Error) (payload : Option Bytes)
      → ((q : StartRunRequest) → remote.start_run q ≡ err e)
      → replay_payload s remote id now payload ≡ none
  unfolding replay_payload
  not_replayed s remote id now e none down = refl
  not_replayed s remote id now e (some []) down = refl
  not_replayed s remote id now e (some (b ∷ bytes)) down =
      not_requested s remote id now e (remote.unmarshal (b ∷ bytes)) down

  if-Ended :
      (id : String) (b : Bool) (one other : Server)
      → Ended one id
      → Ended other id
      → Ended (if b then one else other) id
  if-Ended id true one other g h = g
  if-Ended id false one other g h = h

  forgotten-Ended :
      (s : Server) (remote : Remote) (id : String) (r : Run) (now : ℕ)
      → s.pg.up ≡ true
      → lookup id s.pg.runs ≡ some r
      → has_ended r.status ≡ false
      → Ended (finalize_forgotten s remote id now) id
  unfolding finalize_forgotten finalize_run has_ended
  forgotten-Ended s remote id r now up found live =
      if-Ended id (has_metrics remote id) _ _
        (finalize-Ended s remote id r completed (reported none_given) now up found live refl)
        (finalize-Ended s remote id r aborted (reported none_given) now up found live refl)

  unreached-Ended :
      (s : Server) (remote : Remote) (id : String) (r : Run) (overdue : Bool) (now : ℕ)
      (seen : Result RunReport) (e : Error)
      → s.pg.up ≡ true
      → lookup id s.pg.runs ≡ some r
      → has_ended r.status ≡ false
      → seen ≡ err e
      → ((q : StartRunRequest) → remote.start_run q ≡ err e)
      → Ended (reap_reported s remote id r overdue now seen) id
  unfolding reap_reported replay_dispatch recover
  unreached-Ended s remote id r overdue now seen e up found live lost down =
      let none_sent = not_replayed s remote id now e (get_run_dispatch s.pg id) down in
      subst (λ a. Ended (reap_reported s remote id r overdue now a) id) (sym lost)
        (subst (λ o. Ended (recover s remote id now o) id) (sym none_sent)
          (forgotten-Ended s remote id r now up found live))

  -- The reaper ends every run of at least 15 seconds for which the coordinator answers neither
  -- GetRunState nor StartRun, whatever the error is: also one that is not reached for a moment.
  pub reap_run-unreached :
      (s : Server) (remote : Remote) (id : String) (r : Run) (max_age now : ℕ) (e : Error)
      → s.pg.up ≡ true
      → lookup id s.pg.runs ≡ some r
      → has_ended r.status ≡ false
      → r.created_at + 15 * 1000000000 ≤ now
      → remote.run_state id ≡ err e
      → ((q : StartRunRequest) → remote.start_run q ≡ err e)
      → Ended (reap_run s remote max_age now (id, r)) id
  unfolding reap_run
  reap_run-unreached s remote id r max_age now e up found live old lost down =
      let late : ltb (now - r.created_at) (15 * 1000000000) ≡ false = ground (arith, old) in
      rw late (unreached-Ended s remote id r _ now (remote.run_state id) e up found live lost down)

  notified-stopped :
      (s : Server) (note : Notice) (done : Option (Store × Bool))
      → (notified s note done).stopped ≡ s.stopped
  unfolding notified
  notified-stopped s note none = refl
  notified-stopped s note (some (pg, true)) = refl
  notified-stopped s note (some (pg, false)) = refl

  stop_answered-stopped :
      (s : Server) (remote : Remote) (id : String) (now : ℕ) (answer : Result (Unit {0}))
      → (stop_answered s remote id now answer).0.stopped ≡ s.stopped
  unfolding stop_answered finalize_run_reason
  stop_answered-stopped s remote id now (ok u) = refl
  stop_answered-stopped s remote id now (err Dispatch.not_found) = notified-stopped s _ _
  stop_answered-stopped s remote id now (err Dispatch.invalid_argument) = refl
  stop_answered-stopped s remote id now (err Dispatch.failed_precondition) = refl
  stop_answered-stopped s remote id now (err Dispatch.unavailable) = refl

  stop_found-stopped :
      (s : Server) (remote : Remote) (caller : Option Claims) (id : String) (r : Run) (now : ℕ)
      (may over : Bool)
      → can_mutate caller r.created_by ≡ may
      → has_ended r.status ≡ over
      → (stop_found s remote caller id now (some r)).0.stopped
        ≡ (if may && not over then id ∷ s.stopped else s.stopped)
  unfolding stop_found
  stop_found-stopped s remote caller id r now false over m o = rw m refl
  stop_found-stopped s remote caller id r now true true m o = rw (m, o) refl
  stop_found-stopped s remote caller id r now true false m o =
      rw (m, o) (stop_answered-stopped (record s { stopped = id ∷ s.stopped }) remote id now _)

  -- While the database answers, a request to stop a run has the coordinator stop that run if the
  -- caller is an administrator or the run's creator and the run has not ended, and no run otherwise.
  pub handle_stop_run_lem :
      (s : Server) (remote : Remote) (caller : Option Claims) (id : String) (r : Run) (now : ℕ)
      → s.pg.up ≡ true
      → lookup id s.pg.runs ≡ some r
      → (handle_stop_run s remote caller id now).0.stopped ≡ (
          if can_mutate caller r.created_by && not (has_ended r.status)
          then id ∷ s.stopped
          else s.stopped)
  unfolding handle_stop_run get_run
  handle_stop_run_lem s remote caller id r now up found =
      let row : get_run s.pg id ≡ some r = ground (arith, up, found) in
      ap (λ o. (stop_found s remote caller id now o).0.stopped) row
      ∙ stop_found-stopped s remote caller id r now _ _ refl refl
