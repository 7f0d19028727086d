-- ===== src/Executor/Barrier.antt =====
-- internal/worker/executor/barrier.go: the rendezvous. A caller of `wait` that has to wait stands
-- in `asleep` with the generation that it read, until a broadcast moves it to `awake`; there it
-- stays until it has the mutex again. The mutex makes each stretch between two waits one step.
pub mod Gather
use loadify.Prelude.{
  ℕ, ◌+◌, Bool, false, nat_eq, Option, none, some, List, [], ◌∷◌, ◌++◌, leb, eqb, if◌then◌else◌,
}
use loadify.Dict.{lookup, delete}

pub record Barrier : Type 0 where
  pub target : ℕ
  pub waiting : ℕ
  pub gen : ℕ
  pub asleep : List (ℕ × ℕ)
  pub awake : List (ℕ × ℕ)

-- newBarrier
unfoldable pub new_barrier : ℕ → Barrier
new_barrier target = record { target = target; waiting = 0; gen = 0; asleep = []; awake = [] }

-- release, with the broadcast
unfoldable pub release : Barrier → Barrier
release b = record b { waiting = 0; gen = b.gen + 1; asleep = []; awake = b.awake ++ b.asleep }

-- The loop of wait, from its test to its wait on the condition or to its end, by a caller that is
-- in neither list.
unfoldable pub await : Barrier → ℕ → ℕ → Bool → Barrier
unfolding release
await b vu gen cancelled =
    if eqb b.gen gen
    then (if cancelled then release b else record b { asleep = (vu, gen) ∷ b.asleep })
    else b

-- wait, up to where it waits or returns
unfoldable pub arrive : Barrier → ℕ → Bool → Barrier
unfolding release await
arrive b vu cancelled =
    let gathered = record b { waiting = b.waiting + 1 } in
    if leb b.target gathered.waiting then release gathered else await gathered vu b.gen cancelled

-- The watchdog's function, for a caller that read `gen`.
unfoldable pub time_out : Barrier → ℕ → Barrier
unfolding release
time_out b gen = if eqb b.gen gen then release b else b

-- The caller `vu`, woken, has the mutex again.
unfoldable pub resume : Barrier → ℕ → Bool → Barrier
unfolding await lookup delete
resume b vu cancelled = elim (lookup vu b.awake) [
  | none ↦ b
  | some gen ↦ await (record b { awake = delete vu b.awake }) vu gen cancelled
]

pub data Step : Type 0 where
  arrives : ℕ → Bool → Step
  times_out : ℕ → Step
  resumes : ℕ → Bool → Step

unfoldable pub step : Barrier → Step → Barrier
unfolding arrive time_out resume
step b (arrives vu cancelled) = arrive b vu cancelled
step b (times_out gen) = time_out b gen
step b (resumes vu cancelled) = resume b vu cancelled

-- Any interleaving of callers and watchdogs.
unfoldable pub run : Barrier → List Step → Barrier
unfolding step
run b [] = b
run b (s ∷ steps) = run (step b s) steps

-- Callers that arrive one after the other, their context not cancelled.
unfoldable pub arrive_all : Barrier → List ℕ → Barrier
unfolding arrive
arrive_all b [] = b
arrive_all b (vu ∷ vus) = arrive_all (arrive b vu false) vus
