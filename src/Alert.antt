-- ===== src/Alert.antt =====
-- internal/apisrv/alert.go: the evaluator of the mid-run alert over the live ticks.
pub mod Once
use loadify.Prelude.{
  ℕ, ◌-◌, Bool, true, false, not, ◌&&◌, ◌||◌, List, [], ◌∷◌, ◌++◌, Option, none, some, ltb, leb,
  if◌then◌else◌, length, drop,
}
use loadify.Platform.{Platform, Float, float}
use loadify.Plan.{AlertConfig, alert_enabled}
use loadify.Rollups.{LiveTick}

module _ ⦃p : Platform⦄ where
  pub record TickSample : Type 0 where
    pub reqs : Float
    pub errs : Float

  pub record AlertEvaluator : Type 0 where
    pub enabled : Bool
    pub thresh : Float
    pub window : ℕ
    pub min_req : Float
    pub fired : Bool
    pub buf : List TickSample

  -- newAlertEvaluator
  unfoldable pub new_alert_evaluator : AlertConfig → AlertEvaluator
  new_alert_evaluator c = record {
    enabled = alert_enabled c;
    thresh = p.div_float c.error_rate_pct (float 100);
    window = if leb c.window_sec 0 then 10 else c.window_sec;
    min_req = float c.min_requests;
    fired = false;
    buf = [];
  }

  -- The loop that sums up the buffer.
  unfoldable pub sum_loop : (TickSample → Float) → List TickSample → Float → Float
  sum_loop f [] sum = sum
  sum_loop f (s ∷ samples) sum = sum_loop f samples (p.add_float sum (f s))

  -- The buffer with one more tick, cut to the window.
  unfoldable pub push_sample : AlertEvaluator → LiveTick → List TickSample
  push_sample e t =
      let buf = e.buf ++ record { reqs = t.rps; errs = p.mul_float t.rps t.error_rate } ∷ [] in
      if ltb e.window (length buf) then drop (length buf - e.window) buf else buf

  -- observe, for an evaluator and a tick that are not nil: the rate where the alert fires.
  unfoldable pub observe_tick : AlertEvaluator → LiveTick → AlertEvaluator × Option Float
  unfolding push_sample sum_loop
  observe_tick e t =
      let kept = record e { buf = push_sample e t } in
      let sr = sum_loop (λ s. s.reqs) (push_sample e t) (float 0) in
      let se = sum_loop (λ s. s.errs) (push_sample e t) (float 0) in
      let rate = p.div_float se sr in
      if not e.enabled || e.fired
      then (e, none)
      else if p.lt_float sr e.min_req || p.eq_float sr (float 0)
      then (kept, none)
      else if p.le_float e.thresh rate && p.lt_float (float 0) e.thresh
      then (record kept { fired = true }, some rate)
      else (kept, none)
