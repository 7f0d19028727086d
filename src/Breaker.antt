-- ===== src/Breaker.antt =====
-- internal/coordinator/aggregator/aggregator.go: `evalAutoStop` with the fields of `Aggregator`
-- that it alone writes. A reason is a constructor in place of the text that `Sprintf` makes of it.
pub mod Firing
pub mod Window
use loadify.Prelude.{
  ℕ, zero, suc, ◌+◌, ◌-◌, Bool, true, false, not, ◌&&◌, ◌||◌, List, [], ◌∷◌, ◌++◌, map, Option,
  none, some, ltb, leb, eqb, if◌then◌else◌, length, drop, sum_of,
}
use loadify.Platform.{Platform, Float, float}
use loadify.Plan.{AutoStopConfig, auto_stop_enabled}
use loadify.Rollups.{LiveTick}

pub record SecStat : Type 0 where
  pub count : ℕ
  pub errors : ℕ

-- The trailing window: the last `win` entries.
unfoldable pub trim : ℕ → List SecStat → List SecStat
trim win stats = if ltb win (length stats) then drop (length stats - win) stats else stats

module _ ⦃p : Platform⦄ where
  pub data Reason : Type 0 where
    none_given stopped_by_user not_acknowledged workers_disconnected : Reason
    not_responding : (vus seconds : ℕ) → Reason
    error_rate_above : (rate threshold : Float) (seconds : ℕ) → Reason

  -- `armed` is onStop != nil.
  pub record Breaker : Type 0 where
    pub auto_stop : AutoStopConfig
    pub armed : Bool
    pub auto_win : List SecStat
    pub auto_fired : Bool
    pub stall_sec : ℕ
    pub stall_streak : ℕ

  -- The loop of the stall breaker: the streak at its end, and the virtual users of the tick at
  -- which it trips, if one does.
  unfoldable pub stall_loop : ℕ → ℕ → List LiveTick → ℕ × Option ℕ
  stall_loop stall_sec streak [] = (streak, none)
  stall_loop stall_sec streak (tk ∷ ticks) =
      let streak' : ℕ =
        if ltb 0 tk.active_vus && p.eq_float tk.rps (float 0) then streak + 1 else 0 in
      let rest = stall_loop stall_sec streak' ticks in
      if leb stall_sec streak' then (streak', some tk.active_vus) else rest

  unfoldable pub sec_stat : LiveTick → SecStat
  sec_stat tk = record {
    count = p.to_int (p.add_float tk.rps p.half);
    errors = p.to_int (p.add_float (p.mul_float tk.error_rate tk.rps) p.half);
  }

  -- The window and the error-rate test behind the stall breaker.
  unfoldable pub eval_window : Breaker → List LiveTick → Breaker × Option Reason
  unfolding trim
  eval_window b ticks =
      let win : ℕ = if leb b.auto_stop.window_sec 0 then 10 else b.auto_stop.window_sec in
      let stats = trim win (b.auto_win ++ map sec_stat ticks) in
      let c : ℕ = sum_of (λ s. s.count) stats in
      let e : ℕ = sum_of (λ s. s.errors) stats in
      let kept = record b { auto_win = stats } in
      let rate = p.mul_float (p.div_float (float e) (float c)) (float 100) in
      if ltb c b.auto_stop.min_requests || eqb c 0
      then (kept, none)
      else if p.le_float rate b.auto_stop.error_rate_pct
      then (kept, none)
      else (
        record kept { auto_fired = true },
        some (error_rate_above rate b.auto_stop.error_rate_pct win),
      )

  unfoldable pub eval_stall : Breaker → List LiveTick → Breaker × Option Reason
  unfolding eval_window
  eval_stall b ticks =
      let (streak, tripped) = stall_loop b.stall_sec b.stall_streak ticks in
      elim tripped [
        | some vus ↦ (
          record b { stall_streak = streak; auto_fired = true },
          some (not_responding vus streak),
        )
        | none ↦ eval_window (record b { stall_streak = streak }) ticks
      ]

  abbrev is_empty : List LiveTick → Bool
  is_empty [] = true
  is_empty (tk ∷ ticks) = false

  -- evalAutoStop: the reason is given to the stop callback.
  unfoldable pub eval_auto_stop : Breaker → List LiveTick → Breaker × Option Reason
  unfolding eval_stall
  eval_auto_stop b ticks =
      if not (auto_stop_enabled b.auto_stop) || not b.armed || b.auto_fired || is_empty ticks
      then (b, none)
      else if ltb 0 b.stall_sec
      then eval_stall b ticks
      else eval_window b ticks
