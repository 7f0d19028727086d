-- ===== src/Runs/Finalizing.antt =====
-- internal/apisrv/handlers.go: how a run is finalized, with the thresholds and the baseline of its
-- test. The answers of the coordinator and of ClickHouse are a record of functions, the same
-- throughout one operation; `sent`, `watchers`, `stopped` and `purged` list the calls of
-- notifyWebhook, `go watchRun`, StopRun and the deletion of metrics, the last one first.
use loadify.Prelude.{
  ℕ, ◌-◌, ◌/◌, ◌%◌, Bytes, Bool, true, false, ◌&&◌, ◌||◌, String, string_eq, Option, none, some,
  List, [], ◌∷◌, ltb, if◌then◌else◌, ◌==◌,
}
use loadify.Platform.{Platform, Float, float}
use loadify.Plan.{AlertConfig}
use loadify.Sla.{Check, Threshold, Metrics, evaluate}
use loadify.Breaker.{none_given}
use loadify.Wire.{StartRunRequest}
use loadify.Coordinator.Queries.{RunReport}
use loadify.Coordinator.Dispatch.{Result, ok, err}
use loadify.Runs.{
  Status, failed, SeriesPoint, RunMetrics, Baseline, Saturation, RunSummary, Summary, finalized,
  EndReason, reported, Store, get_run, get_test_definition, finish_run,
}

module _ ⦃p : Platform⦄ where
  -- What SeriesReader.Summary answers; on an error the other two are what it returns with it.
  pub record SummaryAnswer : Type 0 where
    pub summary : SeriesPoint
    pub total : ℕ
    pub error : Option String

  -- `start_run` gives the status that is replied; the last two are proto.Marshal and proto.Unmarshal.
  pub record Remote : Type 0 where
    pub summary_of : String → SummaryAnswer
    pub run_state : String → Result RunReport
    pub start_run : StartRunRequest → Result String
    pub stop_run : String → Result (Unit {0})
    pub marshal : StartRunRequest → Option Bytes
    pub unmarshal : Bytes → Option StartRunRequest

  pub record Notice : Type 0 where
    pub run_id : String
    pub status : Status
    pub payload : RunSummary

  pub record Server : Type 0 where
    pub pg : Store
    pub sent : List Notice
    pub watchers : List (String × AlertConfig)
    pub stopped : List String
    pub purged : List String

  -- Duration.Seconds
  unfoldable pub seconds : ℕ → Float
  seconds d =
      p.add_float (float (d / 1000000000)) (p.div_float (float (d % 1000000000)) (float 1000000000))

  -- The requests per second of evaluateThresholds.
  unfoldable pub qps_of : Option ℕ → ℕ → ℕ → Float
  qps_of none total now = float 0
  qps_of (some started) total now =
      let elapsed = seconds (now - started) in
      if p.lt_float (float 0) elapsed then p.div_float (float total) elapsed else float 0

  -- evaluateThresholds from the decoded thresholds on, and as a whole.
  unfoldable pub check_thresholds :
      Option (List Threshold) → Option ℕ → SeriesPoint → ℕ → ℕ → Option (Bool × List Check)
  check_thresholds none started point total now = none
  check_thresholds (some []) started point total now = none
  check_thresholds (some (t ∷ ths)) started point total now =
      let metrics : Metrics = record {
        p50_ms = point.p50_ms;
        p90_ms = point.p90_ms;
        p95_ms = point.p95_ms;
        p99_ms = point.p99_ms;
        error_rate = p.mul_float point.error_rate (float 100);
        qps = qps_of started total now;
      } in
      some (evaluate (t ∷ ths) metrics)

  unfoldable pub evaluate_thresholds :
      Store → String → SeriesPoint → ℕ → ℕ → Option (Bool × List Check)
  unfolding check_thresholds
  evaluate_thresholds s id point total now = elim (get_run s id) [
    | none ↦ none
    | some run ↦ elim (get_test_definition s run.test_def_id) [
      | none ↦ none
      | some td ↦ check_thresholds td.thresholds run.started_at point total now
    ]
  ]

  -- metricsFromSummary, for which a missing key is 0.
  unfoldable pub metrics_from_summary : Option Summary → RunMetrics
  metrics_from_summary (some (finalized s)) = record {
    total = float s.total_requests;
    error_rate = p.mul_float s.summary.error_rate (float 100);
    p50 = s.summary.p50_ms;
    p90 = s.summary.p90_ms;
    p95 = s.summary.p95_ms;
    p99 = s.summary.p99_ms;
  }
  metrics_from_summary _ = record {
    total = float 0;
    error_rate = p.mul_float (float 0) (float 100);
    p50 = float 0;
    p90 = float 0;
    p95 = float 0;
    p99 = float 0;
  }

  abbrev pub regress_p95_pct : Float
  regress_p95_pct = float 20

  abbrev pub generator_hot_cpu_pct : Float
  generator_hot_cpu_pct = float 90

  unfoldable pub pct_change : Float → Float → Float
  pct_change cur base =
      if p.eq_float base (float 0)
      then float 0
      else p.mul_float (p.div_float (p.sub_float cur base) base) (float 100)

  -- attachBaseline: what it writes for a baseline run, and its tests before.
  unfoldable pub compare_with : String → RunMetrics → SeriesPoint → Baseline
  compare_with base_id bm point =
      let delta = pct_change point.p95_ms bm.p95 in
      record {
        run_id = base_id;
        metrics = bm;
        p95_delta_pct = delta;
        regressed = p.lt_float (float 0) bm.p95 && p.lt_float regress_p95_pct delta;
      }

  unfoldable pub baseline_of : Store → String → Option String → SeriesPoint → Option Baseline
  baseline_of s id none point = none
  baseline_of s id (some base_id) point =
      if base_id == "" || base_id == id then none else elim (get_run s base_id) [
        | none ↦ none
        | some base ↦ some (compare_with base_id (metrics_from_summary base.summary) point)
      ]

  unfoldable pub attach_baseline : Store → String → SeriesPoint → Option Baseline
  unfolding baseline_of
  attach_baseline s id point = elim (get_run s id) [
    | none ↦ none
    | some run ↦ elim (get_test_definition s run.test_def_id) [
      | none ↦ none
      | some td ↦ baseline_of s id td.baseline_run_id point
    ]
  ]

  -- Whether the load generator dropped work or ran hot.
  unfoldable pub saturation_of : Result RunReport → Option Saturation
  saturation_of (err e) = none
  saturation_of (ok st) =
      if ltb 0 st.dropped_iterations
        || ltb 0 st.dropped_metrics
        || p.le_float generator_hot_cpu_pct st.peak_cpu_pct
      then some (record {
        dropped_iterations = st.dropped_iterations;
        dropped_metrics = st.dropped_metrics;
        peak_cpu_pct = st.peak_cpu_pct;
      })
      else none

  -- reason != ""
  unfoldable pub kept_reason : EndReason → Option EndReason
  kept_reason (reported none_given) = none
  kept_reason r = some r

  -- The payload of finalizeRunReason, the status that the thresholds leave, and the whole.
  unfoldable pub payload_of : Store → Remote → String → EndReason → ℕ → RunSummary
  unfolding evaluate_thresholds attach_baseline
  payload_of s remote id reason now =
      let a = remote.summary_of id in
      record {
        total_requests = a.total;
        summary = a.summary;
        metrics_error = a.error;
        reason = kept_reason reason;
        saturation = saturation_of (remote.run_state id);
        verdict = evaluate_thresholds s id a.summary a.total now;
        baseline = attach_baseline s id a.summary;
      }

  unfoldable pub final_status : Status → Option (Bool × List Check) → Status
  final_status status none = status
  final_status status (some (passed, checks)) = if passed then status else failed

  unfoldable pub notified : Server → Notice → Option (Store × Bool) → Server
  notified s n none = s
  notified s n (some (pg, false)) = record s { pg = pg }
  notified s n (some (pg, true)) = record s { pg = pg; sent = n ∷ s.sent }

  unfoldable pub finalize_run_reason : Server → Remote → String → Status → EndReason → ℕ → Server
  unfolding notified payload_of final_status finish_run
  finalize_run_reason s remote id status reason now =
      let payload = payload_of s.pg remote id reason now in
      let status' = final_status status payload.verdict in
      let notice : Notice = record { run_id = id; status = status'; payload = payload } in
      notified s notice (finish_run s.pg id status' (finalized payload) now)

  -- finalizeRun
  unfoldable pub finalize_run : Server → Remote → String → Status → ℕ → Server
  unfolding finalize_run_reason
  finalize_run s remote id status now =
      finalize_run_reason s remote id status (reported none_given) now
