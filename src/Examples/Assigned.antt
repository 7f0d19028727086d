-- ===== src/Examples/Assigned.antt =====
-- The open model and the agent at small values.
use loadify.Prelude.{
  ◌+◌, ◌-◌, ◌≤◌, ◌≡◌, ◌≢◌, ◌⊎◌, refl, List, [], ◌∷◌, ◌++◌, none, true, arith, length, take,
  string_eq, nat_eq,
}
use loadify.Wire.{http, RunAssignment}
use loadify.Dict.{lookup}
use loadify.Sampler.{new, flush}
use loadify.Coordinator.Streams.{metrics, finished}
use loadify.Executor.Ramp.{new_ramp}
use loadify.Executor.Arrival.{
  Arrivals, start, Move, paces, offers, measures, grows, works, closes, moves, move, Work, take_job,
  begin, finish, quit, leave, retire, works_all, work, spawn, pacer,
}
use loadify.Executor.Arrival.Counts.{IsCounted, moves-start-IsCounted}
use loadify.Executor.Arrival.Ending.{closing_ends, weight, IsOver}
use loadify.Agent.{
  Agent, Task, new_agent, send_cap, end_run, put_batch, active_vus, executing, holds, at_select,
}
use loadify.Agent.Steps.{Step, starts, ticks, puts, ends_run, stops, ends_flush, run_steps}
use loadify.Agent.Booking.{Booked}
use loadify.Agent.Bookkeeping.{run_steps-new_agent-Booked}
use loadify.Agent.Sending.{end_run_lem, late_batch-active_vus}
use loadify.Examples.Fixture.{whole, ramp, batch, request}

-- Two iterations become due where the channel holds one.
abbrev two_due : Arrivals
two_due = record (start 1) { due = 2; scheduled = 2 }

abbrev run_moves : List Move
run_moves =
    paces (new_ramp ramp) 50000000
    ∷ offers
    ∷ measures
    ∷ grows
    ∷ works take_job
    ∷ works begin
    ∷ works retire
    ∷ closes
    ∷ works finish
    ∷ []

moves-start-IsCounted_example : IsCounted (moves (start 3) run_moves)
moves-start-IsCounted_example = moves-start-IsCounted 3 run_moves (omega arith)

abbrev closed : Arrivals
closed = moves (start 3) (closes ∷ [])

closed-IsCounted : IsCounted closed
closed-IsCounted = moves-start-IsCounted 3 (closes ∷ []) (omega arith)

abbrev gone : Arrivals
gone = record (start 3) { closed = true; idle = 0; pool = 0 }

closing_ends_example : (2 ≤ weight closed) × (IsOver gone ⊎ ((w : Work) × (work gone w ≢ none)))
unfolding moves move pacer start spawn works_all work
closing_ends_example = closing_ends closed (quit ∷ leave ∷ []) gone closed-IsCounted refl refl

abbrev assigned : RunAssignment
assigned = record {
  run_id = "r1";
  protocol = http;
  payload = request.payload;
  ramp = ramp;
  start_at_unix_ms = 0;
  seed = 1;
}

abbrev agent_steps : List Step
agent_steps =
    starts assigned true 10
    ∷ ticks 0 1000
    ∷ puts 0
    ∷ stops "r1"
    ∷ ends_run 0 0 2000
    ∷ ends_flush 0
    ∷ []

run_steps-new_agent-Booked_example : Booked (run_steps (new_agent "w1" "eu") agent_steps)
unfolding new_agent lookup
run_steps-new_agent-Booked_example =
    run_steps-new_agent-Booked "w1" "eu" agent_steps (refl, (tt, (tt, (tt, (tt, (tt, tt))))))

abbrev agent : Agent
agent = new_agent "w1" "eu"

abbrev task : Task
task = record {
  run_id = "r1";
  sampler = new "r1" "w1" http;
  phase = executing;
  flushing = at_select;
}

end_run_lem_example :
    let after = end_run agent 0 task executing 4 2000 in
    (after.send_ch
      ≡ take send_cap (
          agent.send_ch
          ++ metrics (flush task.sampler 2000).1
            ∷ finished record {
              run_id = "r1";
              worker_id = "w1";
              final_count = 0;
              dropped_iterations = 4;
              dropped_metrics = agent.dropped_send;
            }
            ∷ []))
    × (after.dropped_send ≡ length agent.send_ch + 2 - send_cap)
    × (lookup task.run_id after.runs ≡ none)
    × (lookup task.run_id after.run_protos ≡ none)
    × (lookup task.run_id after.active_by_run ≡ none)
unfolding new_agent
end_run_lem_example = end_run_lem agent 0 task 4 2000 (omega arith)

late_batch-active_vus_example :
    let after = end_run agent 0 task executing 4 2000 in
    (active_vus (put_batch after 0 task (holds batch)) ≡ active_vus after + batch.active_vus)
    × (lookup task.run_id (put_batch after 0 task (holds batch)).runs ≡ none)
late_batch-active_vus_example = late_batch-active_vus agent 0 task task batch 4 2000 refl
