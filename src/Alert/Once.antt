-- ===== src/Alert/Once.antt =====
-- How often the alert fires, and what the evaluator keeps.
use loadify.Prelude.{
  ℕ, ◌-◌, ◌≤◌, ◌≡◌, refl, ◌⊎◌, true, List, [], ◌∷◌, none, some, arith, ltb, length, drop,
  length-drop, if◌then◌else◌,
}
use loadify.Platform.{Platform, Float}
use loadify.Rollups.{LiveTick}
use loadify.Alert.{AlertEvaluator, observe_tick, push_sample}

module _ ⦃p : Platform⦄ where
  -- The evaluator after a stream of ticks, and the rates at which it fired.
  pub alerts : AlertEvaluator → List LiveTick → AlertEvaluator × List Float
  alerts e [] = (e, [])
  alerts e (t ∷ ticks) =
      let (e', rate) = observe_tick e t in
      let (last, rates) = alerts e' ticks in (last, elim rate [ none ↦ rates | some r ↦ r ∷ rates ])

  fired-alerts :
      (e : AlertEvaluator) (ticks : List LiveTick) → e.fired ≡ true → (alerts e ticks).1 ≡ []
  unfolding alerts observe_tick
  fired-alerts e [] h = refl
  fired-alerts e (t ∷ ticks) h = ground (arith, h, fired-alerts e ticks)

  observe_fires :
      (e : AlertEvaluator) (t : LiveTick)
      → ((observe_tick e t).1 ≡ none) ⊎ ((observe_tick e t).0.fired ≡ true)
  unfolding observe_tick
  observe_fires e t = ground arith

  length-cut {ℓ} :
      {A : Type ℓ} (w : ℕ) (xs : List A)
      → length (if ltb w (length xs) then drop (length xs - w) xs else xs) ≤ w
  length-cut w xs = ground (arith, length-drop (length xs - w) xs)

  length-push_sample : (e : AlertEvaluator) (t : LiveTick) → length (push_sample e t) ≤ e.window
  unfolding push_sample
  length-push_sample e t = length-cut e.window _

  observe-bounded :
      (e : AlertEvaluator) (t : LiveTick)
      → length e.buf ≤ e.window
      → length (observe_tick e t).0.buf ≤ (observe_tick e t).0.window
  unfolding observe_tick
  observe-bounded e t h = ground (arith, h, length-push_sample e t)

  -- Over any stream of ticks the alert fires once at most, and an evaluator whose buffer is within
  -- its window keeps it so.
  pub alerts_once :
      (e : AlertEvaluator) (ticks : List LiveTick)
      → length e.buf ≤ e.window
      → (length (alerts e ticks).1 ≤ 1)
        × (length (alerts e ticks).0.buf ≤ (alerts e ticks).0.window)
  unfolding alerts
  alerts_once e [] h = (omega arith, h)
  alerts_once e (t ∷ ticks) h =
      let e' = (observe_tick e t).0 in
      let (once, bounded) = alerts_once e' ticks (observe-bounded e t h) in
      (ground (arith, once, fired-alerts e' ticks, observe_fires e t), bounded)
