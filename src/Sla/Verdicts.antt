-- ===== src/Sla/Verdicts.antt =====
-- The verdict over all thresholds.
use loadify.Prelude.{
  ◌≡◌, sym, if◌then◌else◌, ◌∙◌, ap, Bool, true, false, ◌&&◌, List, [], ◌∷◌, ◌++◌, map, some, arith,
  string_eq, String,
}
use mathlib.Core.List.{append-nil, append_assoc}
use loadify.Platform.{Platform}
use loadify.Sla.{
  Threshold, Metrics, Check, check, evaluate, evaluate_loop, threshold_error, unknown_operator,
  compare,
}

module _ ⦃p : Platform⦄ where
  -- Whether all checks are ok.
  abbrev pub all_ok : List Check → Bool
  all_ok [] = true
  all_ok (c ∷ checks) = c.ok && all_ok checks

  loop_checks :
      (ths : List Threshold) (m : Metrics) (passed : Bool) (checks : List Check)
      → ((evaluate_loop ths m passed checks).1 ≡ checks ++ map (check m) ths)
        × ((evaluate_loop ths m passed checks).0 ≡ (passed && all_ok (map (check m) ths)))
  unfolding evaluate_loop
  loop_checks [] m passed checks = (sym (append-nil checks), ground arith)
  loop_checks (th ∷ ths) m passed checks =
      let (listed, verdict) =
        loop_checks ths m (if (check m th).ok then passed else false) (checks ++ check m th ∷ []) in
      (listed ∙ append_assoc checks (check m th ∷ []) (map (check m) ths), ground (arith, verdict))

  -- There is one check for each threshold, in the order of the thresholds, and the run passes
  -- exactly if all checks are ok.
  pub evaluate_checks :
      (ths : List Threshold) (m : Metrics)
      → ((evaluate ths m).1 ≡ map (check m) ths) × ((evaluate ths m).0 ≡ all_ok (evaluate ths m).1)
  unfolding evaluate
  evaluate_checks ths m =
      let (listed, verdict) = loop_checks ths m true [] in
      (listed, verdict ∙ ap all_ok (sym listed))

  refused-compare :
      (m : Metrics) (th : Threshold) (op : String)
      → threshold_error th ≡ some (unknown_operator op)
      → (check m th).ok ≡ false
  unfolding threshold_error check compare
  refused-compare m th op h = ground (arith, h)

  not_all_ok :
      (m : Metrics) (front : List Threshold) (th : Threshold) (back : List Threshold)
      → (check m th).ok ≡ false
      → all_ok (map (check m) (front ++ th ∷ back)) ≡ false
  not_all_ok m [] th back h = ground (arith, h)
  not_all_ok m (first ∷ front) th back h = ground (arith, not_all_ok m front th back h)

  -- A run never passes with a threshold that `Valid` refuses for its operator.
  pub unknown_operator_fails :
      (front : List Threshold) (th : Threshold) (back : List Threshold) (m : Metrics) (op : String)
      → threshold_error th ≡ some (unknown_operator op)
      → (evaluate (front ++ th ∷ back) m).0 ≡ false
  unfolding evaluate
  unknown_operator_fails front th back m op h =
      (loop_checks (front ++ th ∷ back) m true []).1
      ∙ not_all_ok m front th back (refused-compare m th op h)
