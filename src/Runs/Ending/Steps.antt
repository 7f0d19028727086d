-- ===== src/Runs/Ending/Steps.antt =====
-- The API server as a step relation: launches, watchers that return, the reaper's rounds, stops and
-- deletions in any order, while the database comes and goes and tests are edited. The operations
-- stand there as a whole and in the parts between which they let others run: a launch up to its
-- row, its stored request and the coordinator's reply; a round run by run, each as it was listed; a
-- replay from the coordinator's reply on; and a finalization from its decision on.
-- `SetRunDispatch` and `SetRunStatus` do not look at the row they write: the parts that call them
-- are steps for runs that have not ended.
use loadify.Prelude.{Bytes, ℕ, ◌≡◌, Bool, true, String, Option, none, some, List, [], string_eq}
use loadify.Platform.{Platform}
use loadify.Plan.{AlertConfig}
use loadify.Auth.Tokens.{Claims}
use loadify.Wire.{StartRunRequest}
use loadify.Dict.{lookup}
use loadify.Runs.{Status, Store, EndReason, create_run, Run, TestDefinition, has_ended, new_run}
use loadify.Runs.Finalizing.{Remote, Server, finalize_run_reason}
use loadify.Runs.Watching.{watch_run, Attachment}
use loadify.Runs.Reaping.{reap_once, reap_run, replayed}
use loadify.Runs.Requests.{
  store_request, dispatch_answered, handle_stop_run, handle_delete_run, launch_run,
}
use loadify.Runs.Ending.{notices}
use loadify.Runs.Ending.Writes.{Live, LiveIf}
use loadify.Coordinator.Dispatch.{Result}
use loadify.Runs.Ending.Rounds.{replies_queued}
use loadify.Runs.Ending.Calls.{answers_queued}

module _ ⦃p : Platform⦄ where
  pub data Step (s : Server) : Server → Type 0 where
    launches :
        (remote : Remote) (id test name source : String) (workers : ℕ) (owner : Option String)
        (compiles : Bool) (req : StartRunRequest) (alert : AlertConfig) (now : ℕ)
        → lookup id s.pg.runs ≡ none
        → notices id s.sent ≡ 0
        → Step s
            (launch_run s remote id
              (new_run test workers name owner source now)
              compiles
              req
              alert
              now).0
    creates :
        {pg : Store} (id test name source : String) (workers : ℕ) (owner : Option String) (now : ℕ)
        → lookup id s.pg.runs ≡ none
        → notices id s.sent ≡ 0
        → create_run s.pg id (new_run test workers name owner source now) ≡ some pg
        → Step s (record s { pg = pg })
    stores :
        (id : String) (payload : Option Bytes)
        → Live (lookup id s.pg.runs)
        → Step s (store_request s id payload)
    answers :
        (id : String) (alert : AlertConfig) (now : ℕ) (reply : Result String)
        → LiveIf (answers_queued reply) (lookup id s.pg.runs)
        → Step s (dispatch_answered s id alert now reply).0
    reaps_run :
        (remote : Remote) (max_age now : ℕ) (listed : String × Run)
        → Step s (reap_run s remote max_age now listed)
    replays :
        {t : Server} (id : String) (now : ℕ) (reply : Result String)
        → LiveIf (replies_queued reply) (lookup id s.pg.runs)
        → replayed s id now reply ≡ some t
        → Step s t
    finalizes :
        (remote : Remote) (id : String) (status : Status) (reason : EndReason) (now : ℕ)
        → has_ended status ≡ true
        → Step s (finalize_run_reason s remote id status reason now)
    watches :
        (remote : Remote) (id : String) (alert : AlertConfig) (attachments : List Attachment)
        (now : ℕ)
        → Step s (watch_run s remote id alert attachments now).0
    reaps : (remote : Remote) (max_age now : ℕ) → Step s (reap_once s remote max_age now)
    stops :
        (remote : Remote) (caller : Option Claims) (id : String) (now : ℕ)
        → Step s (handle_stop_run s remote caller id now).0
    deletes : (caller : Option Claims) (id : String) → Step s (handle_delete_run s caller id).0
    connects : (up : Bool) → Step s (record s { pg = record s.pg { up = up } })
    edits :
        (tests : List (String × TestDefinition))
        → Step s (record s { pg = record s.pg { tests = tests } })

  -- The server as it starts with an empty database, and what it can become.
  pub data Reachable : Server → Type 0 where
    initial :
        (up : Bool) (tests : List (String × TestDefinition))
        → Reachable (record {
          pg = record { up = up; runs = []; tests = tests };
          sent = [];
          watchers = [];
          stopped = [];
          purged = [];
        })
    next : {s t : Server} → Reachable s → Step s t → Reachable t
