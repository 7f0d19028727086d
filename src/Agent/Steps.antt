-- ===== src/Agent/Steps.antt =====
-- internal/worker/agent.go: the steps of an agent's goroutines, in any order.
use loadify.Prelude.{ℕ, Bool, ◌≡◌, Option, none, some, List, [], ◌∷◌, String, nat_eq, string_eq}
use loadify.Platform.{Platform}
use loadify.Dict.{lookup}
use loadify.Wire.{RunAssignment}
use loadify.Registry.{Stats}
use loadify.Sampler.{Result}
use loadify.Agent.{
  Agent, Task, start_run, begin_run, abandon_run, record_iteration, take_tick, put_batch, end_flush,
  end_run, stop_run, send_register, send_heartbeat, send_next,
}

module _ ⦃p : Platform⦄ where
  -- The numbers are those of contexts and, last, times; a heartbeat has the host's statistics.
  pub data Step : Type 0 where
    starts : RunAssignment → Bool → ℕ → Step
    begins : ℕ → Step
    abandons : ℕ → Step
    iterates : ℕ → Result → ℕ → Step
    ticks : ℕ → ℕ → Step
    puts : ℕ → Step
    ends_flush : ℕ → Step
    ends_run : (ctx dropped_iters now : ℕ) → Step
    stops : String → Step
    registers : (cores : ℕ) → Step
    beats : Stats → Step
    sends : Step

  abbrev pub with_task : Agent → Option Task → (Task → Agent) → Agent
  with_task a none f = a
  with_task a (some t) f = f t

  unfoldable pub step : Agent → Step → Agent
  unfolding start_run begin_run abandon_run record_iteration take_tick put_batch end_flush end_run
      stop_run send_register send_heartbeat send_next lookup
  step a (starts asg ready now) = start_run a asg ready now
  step a (begins ctx) = with_task a (lookup ctx a.tasks) (λ t. begin_run a ctx t t.phase)
  step a (abandons ctx) = with_task a (lookup ctx a.tasks) (λ t. abandon_run a ctx t t.phase)
  step a (iterates ctx r now) =
      with_task a (lookup ctx a.tasks) (λ t. record_iteration a ctx t r now)
  step a (ticks ctx now) = with_task a (lookup ctx a.tasks) (λ t. take_tick a ctx t t.flushing now)
  step a (puts ctx) = with_task a (lookup ctx a.tasks) (λ t. put_batch a ctx t t.flushing)
  step a (ends_flush ctx) = with_task a (lookup ctx a.tasks) (λ t. end_flush a ctx t t.flushing)
  step a (ends_run ctx iters now) =
      with_task a (lookup ctx a.tasks) (λ t. end_run a ctx t t.phase iters now)
  step a (stops run_id) = stop_run a run_id
  step a (registers cores) = send_register a cores
  step a (beats host) = send_heartbeat a host
  step a sends = send_next a

  unfoldable pub run_steps : Agent → List Step → Agent
  unfolding step
  run_steps a [] = a
  run_steps a (s ∷ steps) = run_steps (step a s) steps

  -- No run is assigned to the agent while it has one of that name.
  abbrev pub StartsFresh : Agent → Step → Type 0
  StartsFresh a (starts asg ready now) = lookup asg.run_id a.runs ≡ none
  StartsFresh a s = Unit

  abbrev pub AllStartFresh : Agent → List Step → Type 0
  AllStartFresh a [] = Unit
  AllStartFresh a (s ∷ steps) = StartsFresh a s × AllStartFresh (step a s) steps
