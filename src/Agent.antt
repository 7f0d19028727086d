-- ===== src/Agent.antt =====
-- internal/worker/agent.go: the worker's agent. A context is a number, with the cancelled ones in
-- `cancelled`; a run that the agent has started is a task under its context's number, with the
-- goroutine of its flush loop. What the mutex or a channel makes one step is one operation; the
-- end of startRun, after its executor, is one too. The executors, of Executor, are met here only
-- by what they record and by their end.
pub mod Backoff
pub mod Steps
pub mod Booking
pub mod Bookkeeping
pub mod Sending
use loadify.Prelude.{
  ℕ, ◌+◌, Bool, true, false, ◌&&◌, ◌||◌, not, Option, none, some, List, [], ◌∷◌, ◌++◌, map, String,
  string_eq, nat_eq, length, drop, ltb, if◌then◌else◌,
}
use loadify.Platform.{Platform}
use loadify.Dict.{lookup, insert, delete, total}
use loadify.Wire.{
  Protocol, http, https, grpc, websocket, sse, ActiveRun, MetricBatch, RunAssignment,
}
use loadify.Registry.{Stats}
use loadify.Sampler.{Sampler, Result, new, record_result, flush}
use loadify.Coordinator.Streams.{WorkerMessage, register, heartbeat, metrics, finished}

abbrev pub send_cap : ℕ
send_cap = 256

-- Where a run's flush loop is: not started, at its select, past it with a batch, or returned.
pub data FlushLoop : Type 0 where
  not_started : FlushLoop
  at_select : FlushLoop
  holds : MetricBatch → FlushLoop
  returned : FlushLoop

pub data Phase : Type 0 where
  waiting executing ended : Phase

abbrev pub is_ended : Phase → Bool
is_ended waiting = false
is_ended executing = false
is_ended ended = true

module _ ⦃p : Platform⦄ where
  pub record Task : Type 0 where
    pub run_id : String
    pub sampler : Sampler
    pub phase : Phase
    pub flushing : FlushLoop

  pub record Agent : Type 0 where
    pub worker_id : String
    pub region : String
    pub send_ch : List WorkerMessage
    pub dropped_send : ℕ
    pub runs : List (String × ℕ)
    pub run_protos : List (String × Protocol)
    pub active_by_run : List (String × ℕ)
    pub next_ctx : ℕ
    pub cancelled : List (ℕ × Bool)
    pub tasks : List (ℕ × Task)

  -- NewAgent
  unfoldable pub new_agent : String → String → Agent
  new_agent worker_id region = record {
    worker_id = worker_id;
    region = region;
    send_ch = [];
    dropped_send = 0;
    runs = [];
    run_protos = [];
    active_by_run = [];
    next_ctx = 0;
    cancelled = [];
    tasks = [];
  }

  unfoldable pub enqueue : Agent → WorkerMessage → Agent
  enqueue a msg =
      if ltb (length a.send_ch) send_cap
      then record a { send_ch = a.send_ch ++ msg ∷ [] }
      else record a { dropped_send = a.dropped_send + 1 }

  unfoldable pub set_active : Agent → String → ℕ → Agent
  set_active a run_id n = record a { active_by_run = insert run_id n a.active_by_run }

  unfoldable pub active_vus : Agent → ℕ
  active_vus a = total (λ n. n) a.active_by_run

  unfoldable pub active_runs : Agent → List ActiveRun
  active_runs a = map (λ (id, proto). record { run_id = id; protocol = proto }) a.run_protos

  unfoldable pub finish_run : Agent → String → Agent
  finish_run a run_id = record a {
    runs = delete run_id a.runs;
    run_protos = delete run_id a.run_protos;
    active_by_run = delete run_id a.active_by_run;
  }

  -- stopRun, with the call of what it found.
  unfoldable pub cancel_ctx : Agent → Option ℕ → Agent
  cancel_ctx a none = a
  cancel_ctx a (some ctx) = record a { cancelled = insert ctx true a.cancelled }

  unfoldable pub stop_run : Agent → String → Agent
  unfolding cancel_ctx
  stop_run a run_id = cancel_ctx a (lookup run_id a.runs)

  unfoldable pub is_cancelled : Agent → ℕ → Bool
  is_cancelled a ctx = elim (lookup ctx a.cancelled) [ none ↦ false | some b ↦ true ]

  -- startRun up to its wait for the start; `ready` is whether the plan, the data and the driver of
  -- the assignment were made.
  unfoldable pub start_run : Agent → RunAssignment → Bool → ℕ → Agent
  start_run a asg ready now =
      let waits = ltb 0 asg.start_at_unix_ms && ltb now asg.start_at_unix_ms in
      let task : Task = record {
        run_id = asg.run_id;
        sampler = new asg.run_id a.worker_id asg.protocol;
        phase = if waits then waiting else executing;
        flushing = if waits then not_started else at_select;
      } in
      if ready
      then record a {
        runs = insert asg.run_id a.next_ctx a.runs;
        run_protos = insert asg.run_id asg.protocol a.run_protos;
        next_ctx = a.next_ctx + 1;
        tasks = insert a.next_ctx task a.tasks;
      }
      else a

  -- The wait for the start ends by its timer, or by the context. These and the next operations get
  -- the task with its phase, or with where its flush loop is.
  unfoldable pub begin_run : Agent → ℕ → Task → Phase → Agent
  begin_run a ctx t waiting = record a {
    tasks = insert ctx (record t { phase = executing; flushing = at_select }) a.tasks;
  }
  begin_run a ctx t executing = a
  begin_run a ctx t ended = a

  unfoldable pub abandon_run : Agent → ℕ → Task → Phase → Agent
  unfolding finish_run is_cancelled
  abandon_run a ctx t waiting =
      let left = finish_run a t.run_id in
      if is_cancelled a ctx
      then record left { tasks = insert ctx (record t { phase = ended }) left.tasks }
      else a
  abandon_run a ctx t executing = a
  abandon_run a ctx t ended = a

  -- An iteration of the run's executor.
  unfoldable pub record_iteration : Agent → ℕ → Task → Result → ℕ → Agent
  record_iteration a ctx t r now = record a {
    tasks = insert ctx (record t { sampler = record_result t.sampler r now }) a.tasks;
  }

  -- The ticker's case of flushLoop: the flush, and what follows it.
  unfoldable pub take_tick : Agent → ℕ → Task → FlushLoop → ℕ → Agent
  take_tick a ctx t not_started now = a
  take_tick a ctx t at_select now =
      let (sampler, batch) = flush t.sampler now in
      record a {
        tasks = insert ctx (record t { sampler = sampler; flushing = holds batch }) a.tasks;
      }
  take_tick a ctx t (holds b) now = a
  take_tick a ctx t returned now = a

  unfoldable pub put_batch : Agent → ℕ → Task → FlushLoop → Agent
  unfolding set_active enqueue
  put_batch a ctx t not_started = a
  put_batch a ctx t at_select = a
  put_batch a ctx t (holds b) =
      let put = enqueue (set_active a t.run_id b.active_vus) (metrics b) in
      record put { tasks = insert ctx (record t { flushing = at_select }) put.tasks }
  put_batch a ctx t returned = a

  -- The other cases: the context's, and that of a closed flushDone.
  unfoldable pub end_flush : Agent → ℕ → Task → FlushLoop → Agent
  unfolding is_cancelled
  end_flush a ctx t not_started = a
  end_flush a ctx t at_select =
      if is_cancelled a ctx || is_ended t.phase
      then record a { tasks = insert ctx (record t { flushing = returned }) a.tasks }
      else a
  end_flush a ctx t (holds b) = a
  end_flush a ctx t returned = a

  -- startRun from the end of its executor, which dropped `dropped_iters` iterations.
  unfoldable pub end_run : Agent → ℕ → Task → Phase → ℕ → ℕ → Agent
  unfolding enqueue finish_run
  end_run a ctx t waiting dropped_iters now = a
  end_run a ctx t executing dropped_iters now =
      let (sampler, batch) = flush t.sampler now in
      let done : WorkerMessage = finished record {
        run_id = t.run_id;
        worker_id = a.worker_id;
        final_count = 0;
        dropped_iterations = dropped_iters;
        dropped_metrics = a.dropped_send;
      } in
      let sent = enqueue (enqueue (record a { dropped_send = 0 }) (metrics batch)) done in
      let left = finish_run sent t.run_id in
      record left { tasks = insert ctx (record t { phase = ended; sampler = sampler }) left.tasks }
  end_run a ctx t ended dropped_iters now = a

  -- session's registration, and a heartbeat; `host` is what the host's statistics are.
  unfoldable pub send_register : Agent → ℕ → Agent
  unfolding enqueue active_runs
  send_register a cores = enqueue a (
      register record {
        worker_id = a.worker_id;
        region = a.region;
        cpu_cores = cores;
        supported = http ∷ https ∷ grpc ∷ websocket ∷ sse ∷ [];
        active_runs = active_runs a;
      })

  unfoldable pub send_heartbeat : Agent → Stats → Agent
  unfolding enqueue active_vus
  send_heartbeat a host =
      enqueue a (heartbeat a.worker_id (record host { active_vus = active_vus a }))

  -- The sender goroutine takes a message.
  unfoldable pub send_next : Agent → Agent
  send_next a = record a { send_ch = drop 1 a.send_ch }
