-- ===== src/Sla.antt =====
-- internal/sla/sla.go: the pass criteria of a run. An error is a constructor in place of its text.
pub mod Verdicts
use loadify.Prelude.{
  Bool, true, false, not, ◌&&◌, ◌||◌, String, List, [], ◌∷◌, ◌++◌, Option, none, some,
  if◌then◌else◌, string_eq, ◌==◌,
}
use loadify.Platform.{Platform, Float, float}

pub data ThresholdError : Type 0 where
  unknown_metric unknown_operator : String → ThresholdError

module _ ⦃p : Platform⦄ where
  pub record Threshold : Type 0 where
    pub metric : String
    pub op : String
    pub value : Float

  pub record Metrics : Type 0 where
    pub p50_ms : Float
    pub p90_ms : Float
    pub p95_ms : Float
    pub p99_ms : Float
    pub error_rate : Float
    pub qps : Float

  pub record Check : Type 0 where
    pub metric : String
    pub op : String
    pub value : Float
    pub actual : Float
    pub ok : Bool

  -- value
  unfoldable pub metric_value : String → Metrics → Float
  metric_value metric m =
      if metric == "p50_ms"
      then m.p50_ms
      else if metric == "p90_ms"
      then m.p90_ms
      else if metric == "p95_ms"
      then m.p95_ms
      else if metric == "p99_ms"
      then m.p99_ms
      else if metric == "error_rate"
      then m.error_rate
      else if metric == "qps"
      then m.qps
      else float 0

  unfoldable pub compare : Float → String → Float → Bool
  compare a op b =
      if op == "<"
      then p.lt_float a b
      else if op == "<="
      then p.le_float a b
      else if op == ">"
      then p.lt_float b a
      else if op == ">="
      then p.le_float b a
      else false

  -- The body of the loop of Evaluate: the check of one threshold.
  unfoldable pub check : Metrics → Threshold → Check
  check m th =
      let actual = metric_value th.metric m in
      record {
        metric = th.metric;
        op = th.op;
        value = th.value;
        actual = actual;
        ok = compare actual th.op th.value;
      }

  unfoldable pub evaluate_loop : List Threshold → Metrics → Bool → List Check → Bool × List Check
  evaluate_loop [] m passed checks = (passed, checks)
  evaluate_loop (th ∷ ths) m passed checks =
      let c : Check = check m th in
      evaluate_loop ths m (if c.ok then passed else false) (checks ++ c ∷ [])

  -- Evaluate
  unfoldable pub evaluate : List Threshold → Metrics → Bool × List Check
  unfolding evaluate_loop
  evaluate ths m = evaluate_loop ths m true []

  abbrev known_metric : String → Bool
  known_metric metric =
      metric == "p50_ms"
      || (metric == "p90_ms"
          || (metric == "p95_ms"
              || (metric == "p99_ms" || (metric == "error_rate" || (metric == "qps")))))

  abbrev known_operator : String → Bool
  known_operator op = op == "<" || (op == "<=" || (op == ">" || (op == ">=")))

  -- Threshold.Valid; `none` is no error.
  unfoldable pub threshold_error : Threshold → Option ThresholdError
  threshold_error t =
      if not (known_metric t.metric)
      then some (unknown_metric t.metric)
      else if not (known_operator t.op)
      then some (unknown_operator t.op)
      else none
