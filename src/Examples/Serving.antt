-- ===== src/Examples/Serving.antt =====
-- Runs of the API server, with a coordinator that answers and with one that does not.
use loadify.Prelude.{◌*◌, ◌≡◌, ◌↔◌, ◌⊎◌, refl, true, none, some, List, [], ◌∷◌, string_eq, arith}
use loadify.Auth.Tokens.{Claims}
use loadify.Dict.{lookup, insert}
use loadify.Wire.{RunStatus}
use loadify.Wire
use loadify.Breaker.{none_given}
use loadify.Alert.{new_alert_evaluator}
use loadify.Coordinator.Queries.{RunReport}
use loadify.Coordinator.Dispatch.{ok, err}
use loadify.Coordinator.Dispatch
use loadify.Runs.{
  aborted, gone_from_coordinator, Run, SeriesPoint, running, failed, dispatch_failed, has_ended,
  new_run, finished_row, create_run, set_run_dispatch, write, write_found, finish_run, finish_found,
}
use loadify.Runs.Finalizing.{Remote, Server, finalize_run_reason}
use loadify.Runs.Watching.{Attachment, watch_loop}
use loadify.Runs.Watching.Verdict.{Verdict, watch_loop-Verdict}
use loadify.Runs.Reaping.{no_alert_config, reap_run, reap_once}
use loadify.Runs.Requests.{
  launch_run, launch_created, store_request, dispatch_answered, undispatched, can_mutate,
  handle_delete_run,
}
use loadify.Runs.Ending.{KeptIn}
use loadify.Runs.Ending.Steps.{initial, next, launches, creates, finalizes, answers, reaps}
use loadify.Runs.Ending.Events.{notified_once, ended_unchanged}
use loadify.Runs.Guards.{Ended, reap_run-unreached, handle_delete_run_lem}
use loadify.Examples.Fixture.{whole, request}

abbrev point : SeriesPoint
point = record { rps = 0; error_rate = 0; p50_ms = 0; p90_ms = 0; p95_ms = 0; p99_ms = 0 }

-- A coordinator that knows no run and takes none.
abbrev unreached : Remote
unreached = record {
  summary_of = λ id. record { summary = point; total = 0; error = none };
  run_state = λ id. err Dispatch.unavailable;
  start_run = λ req. err Dispatch.unavailable;
  stop_run = λ id. err Dispatch.not_found;
  marshal = λ req. some (1 ∷ []);
  unmarshal = λ bytes. some request;
}

-- A coordinator that takes every run.
abbrev willing : Remote
willing = record unreached { start_run = λ req. ok "running" }

abbrev empty : Server
empty = record {
  pg = record { up = true; runs = []; tests = [] };
  sent = [];
  watchers = [];
  stopped = [];
  purged = [];
}

abbrev created : Run
created = new_run "t1" 1 "smoke" (some "alice") "" 5

abbrev started : Server
started = (launch_run empty willing "r1" created true request no_alert_config 5).0

abbrev refused : Server
refused = (launch_run empty unreached "r1" created true request no_alert_config 5).0

-- The run's row is there, and the run is finalized before the coordinator's reply is written.
abbrev row_created : Server
row_created = record empty { pg = record empty.pg { runs = ("r1", created) ∷ [] } }

abbrev finalized : Server
finalized = finalize_run_reason row_created unreached "r1" aborted gone_from_coordinator 6

notified_once_example :
    KeptIn "r1" (dispatch_answered finalized "r1" no_alert_config 7 (ok "running")).0
unfolding lookup create_run insert has_ended
notified_once_example =
    notified_once
      (next
        (next
          (next (initial true [])
            (creates {pg = row_created.pg} "r1" "t1" "smoke" "" 1 (some "alice") 5 refl refl refl))
          (finalizes unreached "r1" aborted gone_from_coordinator 6 refl))
        (answers "r1" no_alert_config 7 (ok "running") tt))
      "r1"

abbrev refused_row : Run
refused_row =
    finished_row failed dispatch_failed 5 (record created { dispatch_payload = some (1 ∷ []) })

ended_unchanged_example :
    let t = reap_once refused unreached 100 (20 * 1000000000) in
    (lookup "r1" t.pg.runs ≡ some refused_row) ⊎ (lookup "r1" t.pg.runs ≡ none)
unfolding lookup insert launch_run launch_created create_run store_request set_run_dispatch write
    write_found dispatch_answered undispatched finish_run finish_found has_ended finished_row
    new_run
ended_unchanged_example =
    ended_unchanged "r1" refused_row
      (next (initial true []) (
        launches unreached "r1" "t1" "smoke" "" 1 (some "alice") true request no_alert_config 5 refl
          refl))
      (reaps unreached 100 (20 * 1000000000)) refl refl

abbrev report : RunStatus → RunReport
report status = record {
  run_id = "r1";
  status = status;
  active_vus = 0;
  started_at = none;
  ended_at = none;
  workers_assigned = 1;
  workers_finished = 0;
  reason = none_given;
  dropped_iterations = 0;
  dropped_metrics = 0;
  peak_cpu_pct = 0;
  queue_position = 0;
  queue_eta_ms = 0;
}

abbrev attachments : List Attachment
attachments =
    record { ticks = []; state = err Dispatch.unavailable }
    ∷ record { ticks = []; state = ok (report Wire.RunStatus.running) }
    ∷ record { ticks = []; state = ok (report Wire.RunStatus.aborted) }
    ∷ []

watch_loop-Verdict_example :
    Verdict 0 attachments (watch_loop (new_alert_evaluator no_alert_config) 0 attachments).0
watch_loop-Verdict_example =
    watch_loop-Verdict (new_alert_evaluator no_alert_config) 0 attachments (omega arith)

abbrev row : Run
row = record created { status = running; started_at = some 6 }

abbrev serving : Server
serving = record empty { pg = record { up = true; runs = ("r1", row) ∷ []; tests = [] } }

reap_run-unreached_example :
    Ended (reap_run serving unreached 100 (20 * 1000000000) ("r1", row)) "r1"
unfolding lookup has_ended new_run
reap_run-unreached_example =
    reap_run-unreached serving unreached "r1" row 100 (20 * 1000000000) Dispatch.unavailable refl
      refl refl (omega arith) refl (λ req. refl)

abbrev alice : Claims
alice = record {
  subject = "alice";
  email = "alice@loadify";
  name = "Alice";
  role = "viewer";
  issued = 0;
  expires = 0;
}

handle_delete_run_lem_example :
    (lookup "r1" (handle_delete_run serving (some alice) "r1").0.pg.runs ≡ none)
    ↔ ((can_mutate (some alice) (some "alice") ≡ true) × (has_ended running ≡ true))
unfolding lookup new_run
handle_delete_run_lem_example = handle_delete_run_lem serving (some alice) "r1" row refl refl
