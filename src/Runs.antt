-- ===== src/Runs.antt =====
-- internal/store/postgres/postgres.go: the rows of the table `runs` with the statements that write
-- them, as SQL means them. A call of the store returns `none` where the driver reports an error, and
-- `up` says whether the database answers. Times are in nanoseconds; identifiers are texts.
pub mod Finalizing
pub mod Watching
pub mod Reaping
pub mod Requests
pub mod Ending
pub mod Guards
pub mod Requested
use loadify.Prelude.{
  ℕ, Bytes, Bool, true, false, String, string_eq, Option, none, some, List, [], ◌∷◌, leb, take,
  filter, if◌then◌else◌, ◌==◌, map,
}
use loadify.Platform.{Platform, Float}
use loadify.Sla.{Check, Threshold}
use loadify.Breaker.{Reason}
use loadify.Dict.{lookup, insert, delete, values}

pub data Status : Type 0 where
  pending queued running completed failed aborted : Status

-- status IN ('completed','failed','aborted')
unfoldable pub has_ended : Status → Bool
has_ended completed = true
has_ended failed = true
has_ended aborted = true
has_ended _ = false

-- status IN ('pending','queued')
unfoldable pub is_waiting : Status → Bool
is_waiting pending = true
is_waiting queued = true
is_waiting _ = false

module _ ⦃p : Platform⦄ where
  -- SeriesPoint of internal/store/store.go, without its time.
  pub record SeriesPoint : Type 0 where
    pub rps : Float
    pub error_rate : Float
    pub p50_ms : Float
    pub p90_ms : Float
    pub p95_ms : Float
    pub p99_ms : Float

  -- The run metrics of a stored summary.
  pub record RunMetrics : Type 0 where
    pub total : Float
    pub error_rate : Float
    pub p50 : Float
    pub p90 : Float
    pub p95 : Float
    pub p99 : Float

  pub record Baseline : Type 0 where
    pub run_id : String
    pub metrics : RunMetrics
    pub p95_delta_pct : Float
    pub regressed : Bool

  pub record Saturation : Type 0 where
    pub dropped_iterations : ℕ
    pub dropped_metrics : ℕ
    pub peak_cpu_pct : Float

  -- The reason of the coordinator, or handleStopRun's text for a run that it no longer has.
  pub data EndReason : Type 0 where
    reported : Reason → EndReason
    gone_from_coordinator : EndReason

  -- The JSON object that a finalization stores: an option for each group of keys that it may leave
  -- out.
  pub record RunSummary : Type 0 where
    pub total_requests : ℕ
    pub summary : SeriesPoint
    pub metrics_error : Option String
    pub reason : Option EndReason
    pub saturation : Option Saturation
    pub verdict : Option (Bool × List Check)
    pub baseline : Option Baseline

  -- The column `summary`: what a finalization stores, or {"error":"dispatch failed"}.
  pub data Summary : Type 0 where
    dispatch_failed : Summary
    finalized : RunSummary → Summary

  pub record Run : Type 0 where
    pub test_def_id : String
    pub name : String
    pub status : Status
    pub desired_workers : ℕ
    pub started_at : Option ℕ
    pub ended_at : Option ℕ
    pub summary : Option Summary
    pub created_by : Option String
    pub source : String
    pub created_at : ℕ
    pub dispatch_payload : Option Bytes

  -- `thresholds` is what the JSON column decodes to, `none` where that is an error or it is empty.
  pub record TestDefinition : Type 0 where
    pub name : String
    pub thresholds : Option (List Threshold)
    pub baseline_run_id : Option String

  pub record Store : Type 0 where
    pub up : Bool
    pub runs : List (String × Run)
    pub tests : List (String × TestDefinition)

  -- What CreateRun inserts, under an id that the database makes.
  unfoldable pub new_run : String → ℕ → String → Option String → String → ℕ → Run
  new_run test_def_id desired_workers name created_by source now = record {
    test_def_id = test_def_id;
    name = name;
    status = pending;
    desired_workers = desired_workers;
    started_at = none;
    ended_at = none;
    summary = none;
    created_by = created_by;
    source = if source == "" then "manual" else source;
    created_at = now;
    dispatch_payload = none;
  }

  unfoldable pub create_run : Store → String → Run → Option Store
  create_run s id r = if s.up then some (record s { runs = insert id r s.runs }) else none

  -- An UPDATE of one row.
  unfoldable pub write_found : Store → String → Option Run → (Run → Run) → Store
  write_found s id none f = s
  write_found s id (some r) f = record s { runs = insert id (f r) s.runs }

  unfoldable pub write : Store → String → (Run → Run) → Store
  unfolding write_found
  write s id f = if s.up then write_found s id (lookup id s.runs) f else s

  unfoldable pub run_started : ℕ → Run → Run
  run_started now r =
      if is_waiting r.status then record r { status = running; started_at = some now } else r

  -- SetRunRunning, SetRunStatus and SetRunDispatch: every caller drops the error.
  unfoldable pub set_run_running : Store → String → ℕ → Store
  unfolding write
  set_run_running s id now = write s id (run_started now)

  unfoldable pub set_run_status : Store → String → Status → Store
  unfolding write
  set_run_status s id status = write s id (λ r. record r { status = status })

  unfoldable pub set_run_dispatch : Store → String → Bytes → Store
  unfolding write
  set_run_dispatch s id payload = write s id (λ r. record r { dispatch_payload = some payload })

  unfoldable pub finished_row : Status → Summary → ℕ → Run → Run
  finished_row status summary now r = record r {
    status = status;
    ended_at = some now;
    summary = some summary;
    dispatch_payload = none;
  }

  -- FinishRun: whether this call made the run end.
  unfoldable pub finish_found : Store → String → Option Run → Status → Summary → ℕ → Store × Bool
  finish_found s id none status summary now = (s, false)
  finish_found s id (some r) status summary now =
      if has_ended r.status
      then (s, false)
      else (record s { runs = insert id (finished_row status summary now r) s.runs }, true)

  unfoldable pub finish_run : Store → String → Status → Summary → ℕ → Option (Store × Bool)
  unfolding finish_found
  finish_run s id status summary now =
      if s.up then some (finish_found s id (lookup id s.runs) status summary now) else none

  -- GetRun and GetTestDefinition: `none` is an error, a missing row included.
  unfoldable pub get_run : Store → String → Option Run
  get_run s id = if s.up then lookup id s.runs else none

  unfoldable pub get_test_definition : Store → String → Option TestDefinition
  get_test_definition s id = if s.up then lookup id s.tests else none

  -- GetRunDispatch: `none` also where no payload is stored.
  unfoldable pub get_run_dispatch : Store → String → Option Bytes
  unfolding get_run
  get_run_dispatch s id = elim (get_run s id) [ none ↦ none | some r ↦ r.dispatch_payload ]

  -- ListActiveRuns: the 500 oldest of the runs that have not ended.
  unfoldable pub insert_by_age : String × Run → List (String × Run) → List (String × Run)
  insert_by_age r [] = r ∷ []
  insert_by_age r (q ∷ rest) =
      let deeper = insert_by_age r rest in
      if leb r.1.created_at q.1.created_at then r ∷ q ∷ rest else q ∷ deeper

  unfoldable pub oldest_first : List (String × Run) → List (String × Run)
  oldest_first [] = []
  oldest_first (r ∷ rest) = insert_by_age r (oldest_first rest)

  abbrev is_active : Status → Bool
  is_active s = elim (has_ended s) [ true ↦ false | false ↦ true ]

  unfoldable pub list_active_runs : Store → Option (List (String × Run))
  list_active_runs s =
      if s.up
      then some (take 500 (oldest_first (filter (λ r. is_active r.1.status) s.runs)))
      else none

  -- DeleteRun, whose foreign key leaves tests that had the run as baseline without one: `none` is
  -- an error, a missing row included.
  unfoldable pub without_baseline : String → TestDefinition → TestDefinition
  without_baseline id t = elim t.baseline_run_id [
    | none ↦ t
    | some b ↦ if b == id then record t { baseline_run_id = none } else t
  ]

  unfoldable pub delete_found : Store → String → Option Run → Option Store
  delete_found s id none = none
  delete_found s id (some r) =
      let tests' = map (λ t. (t.0, without_baseline id t.1)) s.tests in
      some (record s { runs = delete id s.runs; tests = tests' })

  unfoldable pub delete_run : Store → String → Option Store
  unfolding delete_found get_run
  delete_run s id = delete_found s id (get_run s id)
