-- ===== src/Runs/Watching.antt =====
-- internal/apisrv/handlers.go: `watchRun`, which follows one run until it ends. One turn of its loop
-- is an attachment: the ticks of the live stream, none where StreamLive fails, and what GetRunState
-- then answers.
pub mod Verdict
use loadify.Prelude.{
  ℕ, zero, suc, ◌+◌, Bool, true, false, String, Option, none, some, List, [], ◌∷◌, ◌++◌, ltb,
  if◌then◌else◌,
}
use loadify.Platform.{Platform, Float}
use loadify.Plan.{AlertConfig}
use loadify.Rollups.{LiveTick}
use loadify.Alert.{AlertEvaluator, new_alert_evaluator, observe_tick}
use loadify.Breaker.{Reason, none_given}
use loadify.Wire.{RunStatus, unset, pending, running, completed, failed, aborted, queued}
use loadify.Coordinator.Queries.{RunReport}
use loadify.Coordinator.Dispatch.{Result, ok, err}
use loadify.Runs.{Status, EndReason, reported}
use loadify.Runs
use loadify.Runs.Finalizing.{Remote, Server, finalize_run_reason}

module _ ⦃p : Platform⦄ where
  pub record Attachment : Type 0 where
    pub ticks : List LiveTick
    pub state : Result RunReport

  -- How watchRun returns; `watching` is that it has not yet.
  pub data Watched : Type 0 where
    watching : Watched
    left_to_reaper : Watched
    finalizes : (status : Status) (reason : EndReason) → Watched

  -- The receive loop: the rates of the alerts that are sent.
  unfoldable pub observe_loop : AlertEvaluator → List LiveTick → AlertEvaluator × List Float
  observe_loop ev [] = (ev, [])
  observe_loop ev (t ∷ ticks) =
      let (ev', fire) = observe_tick ev t in
      let (last, rates) = observe_loop ev' ticks in
      elim fire [ none ↦ (last, rates) | some rate ↦ (last, rate ∷ rates) ]

  -- The `switch` on the status that is reported; `none` where the run is still live.
  unfoldable pub end_of : RunStatus → Reason → Option (Status × EndReason)
  end_of pending reason = none
  end_of queued reason = none
  end_of running reason = none
  end_of aborted reason = some (Runs.Status.aborted, reported reason)
  end_of _ reason = some (Runs.Status.completed, reported none_given)

  unfoldable pub verdict_of : RunReport → Option (Status × EndReason)
  unfolding end_of
  verdict_of st = end_of st.status st.reason

  -- One turn of the loop: by what GetRunState answers, with the rates of this turn and what the
  -- turns after it come to, where the answer is an error and where the run is still live.
  abbrev joined : List Float → Watched × List Float → Watched × List Float
  joined rates w = (w.0, rates ++ w.1)

  unfoldable pub settle :
      Option (Status × EndReason) → List Float → Watched × List Float → Watched × List Float
  settle none rates next = joined rates next
  settle (some v) rates next = (finalizes v.0 v.1, rates)

  unfoldable pub turn :
      Result RunReport
      → ℕ
      → List Float
      → Watched × List Float
      → Watched × List Float
      → Watched × List Float
  unfolding verdict_of settle
  turn (err e) unresolved rates retried next =
      if ltb 20 (unresolved + 1) then (left_to_reaper, rates) else joined rates retried
  turn (ok st) unresolved rates retried next = settle (verdict_of st) rates next

  unfoldable pub watch_loop : AlertEvaluator → ℕ → List Attachment → Watched × List Float
  unfolding observe_loop turn
  watch_loop ev unresolved [] = (watching, [])
  watch_loop ev unresolved (a ∷ rest) =
      let seen = observe_loop ev a.ticks in
      let retried = watch_loop seen.0 (unresolved + 1) rest in
      let next = watch_loop seen.0 0 rest in turn a.state unresolved seen.1 retried next

  -- watchRun: its effect on the server when it returns.
  unfoldable pub conclude : Server → Remote → String → ℕ → Watched → Server
  conclude s remote id now (finalizes status reason) =
      finalize_run_reason s remote id status reason now
  conclude s remote id now _ = s

  unfoldable pub watch_run :
      Server → Remote → String → AlertConfig → List Attachment → ℕ → Server × List Float
  unfolding watch_loop conclude
  watch_run s remote id alert attachments now =
      let (w, rates) = watch_loop (new_alert_evaluator alert) 0 attachments in
      (conclude s remote id now w, rates)
