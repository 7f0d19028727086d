-- ===== src/Lib.antt =====
-- loadify: a distributed load generator. A coordinator admits runs, shares each one over the
-- connected workers, merges the metrics that the workers send every second, and ends the run; the
-- workers produce the load; an API server and a web interface stand in front. These files model the
-- coordinator, the worker without the network side of its protocol drivers, and of the API server the
-- life of a run, what supervises it, who is let in, the validation of plans and the curl importer.
--
-- The parts and their files:
--   Scheduler     internal/coordinator/scheduler/scheduler.go: SliceRamp, splitEven, PickWorkers.
--   Registry      internal/coordinator/registry/registry.go: the connected workers, with their health
--                 and utilization (Add, Remove, Touch, Get, Utilization, Healthy, Available, List).
--   Metrics       internal/metrics/metrics.go: StatusClass, Recorder.Record, the histograms' encoding,
--                 PercentilesOf.
--   Rollups       aggregator.go's collect and sampleToStore: rows of the metric store and live ticks.
--   Breaker       aggregator.go's evalAutoStop: the stall breaker and the error-rate window.
--   Aggregator    internal/coordinator/aggregator/aggregator.go: Ingest, Subscribe, finalize, and Run
--                 with its final drain.
--   Plan          internal/plan/plan.go: the breaker's and the alert's configuration. Validation has
--                 HTTPAssert.Validate, validateURL, validateHostPort and the cases of Validate by
--                 protocol, Validation.Whole validateNumerics, Validate and the defaults it writes.
--   Runs          internal/store/postgres/postgres.go: the rows of runs and the statements on them.
--                 Its modules are the API server around a run: Finalizing (finalizeRunReason,
--                 evaluateThresholds, attachBaseline, metricsFromSummary), Watching (watchRun),
--                 Reaping (reapOnce, replayDispatch, finalizeForgotten) and Requested (normalizeTags,
--                 parseRamp, protoEnum) of internal/apisrv/handlers.go, Requests with canMutate and
--                 launchRun of that file and handleStopRun and handleDeleteRun of
--                 internal/apisrv/auth.go. Ending.Steps has the step relation over these.
--   Tests         the test definitions: their rows in postgres.go, and handleCreateTest,
--                 handleUpdateTest, handleDeleteTest, handleSetBaseline of handlers.go. Snapshot has
--                 launchRun up to the insertion of the run, buildRunSnapshot, and substituteEnv of
--                 internal/apisrv/environments.go.
--   Importer      internal/importer/curl.go: parseCurl, tokenize.
--   Asserts       internal/worker/protocols/httpd/assert.go: evalAsserts and all that it calls.
--   Alert         internal/apisrv/alert.go: the mid-run alert over the live ticks.
--   Sla           internal/sla/sla.go: the pass criteria over a run's summary.
--   RateLimit     internal/apisrv/ratelimit.go: the limit on login attempts. Address has clientIP.
--   Wire          the messages of api/proto/loadify/v1.
--   Coordinator   internal/coordinator/service.go and runner.go. State has the types and New,
--                 Dispatch has canDispatchLocked, dispatchLocked and drainLocked, Lifecycle has
--                 StartRun, finalizeLocked, workerFinished, forceFinalize, StopRun and autoStopRun,
--                 Watchdog has reapOnce, Streams has Connect, rehydrate, recordPeakCPU and ingest,
--                 Queries has the capacity, the run state and the queue's estimates. Events has the
--                 step relation over all of these, and Orphans the visits of the watchdog among them.
--   Utf8          internal/worker/sampler/sampler.go's validUTF8, with what it uses of unicode/utf8
--                 and strings.
--   Sampler       internal/worker/sampler/sampler.go: New, Record, maybeSampleLocked, SetActiveVUs,
--                 Flush.
--   Executor      internal/worker/executor. Ramp has ramp.go, Limits limits.go, Pool the closed model
--                 of executor.go (spawnLocked, scaleTo, Run, Stop), Arrival the open model of
--                 arrival.go (the pacer's and the workers' operations, one by one and a whole tick),
--                 Barrier the rendezvous of barrier.go, Thinking the pauses of think.go, Iterating
--                 runVU of executor.go.
--   Agent         internal/worker/agent.go: startRun in its stretches, flushLoop, stopRun, finishRun,
--                 enqueue, setActive, activeVUs, activeRuns, the registration and the heartbeats.
--                 Backoff has Run's waits, Steps the goroutines' steps in any order.
--   Auth          internal/auth/jwt.go (Tokens: Issue, Parse), internal/auth/rbac.go (Access: the
--                 roles, claimsFrom, ClaimsFrom, Require) and internal/apisrv/revocation.go (Revocation:
--                 validateClaims with its cache), and internal/apisrv/share.go (Sharing: handleShareRun,
--                 runRead, reportAuthorized).
--   Dict          a Go map as an association list, in the order in which the program ranges over it.
--   Platform      what comes from outside the repository: float64 arithmetic, hdrhistogram-go and
--                 the gob form of its histograms.
--   Examples      concrete runs.
--
-- How they interact: a dispatch asks the registry for workers and the scheduler for their ramps,
-- and makes an aggregator for the run, armed with the plan's breaker. A worker's stream carries its
-- registration, heartbeats, metric batches (to the run's aggregator) and finish reports. An
-- aggregator's tick may call the breaker's callback, which stops the run. Finishing a run gives its
-- slot back and drains the queue. On a worker, the agent starts a run with a sampler and an
-- executor; the executor's virtual users record their results in the sampler, the agent's flush
-- loop sends what the sampler collected, and the coordinator's aggregator takes it in. The worker
-- sends the messages that the coordinator's streams receive, so that the two sides share these
-- types. The API server starts a run on the coordinator and follows it with a watcher, which reads
-- the coordinator's report of the run (Coordinator.Queries); a watcher, the reaper and a request to
-- stop may all finalize the run, which the database's statement lets one of them do.
--
-- The state is passed explicitly, and the clock is an argument, in milliseconds. A critical section
-- under a mutex is one function, and the order of calls is that of the steps. A send channel is a
-- number, with its buffered messages in the service's state; what the program leaves to a timer or
-- to a sleeping goroutine stands in a list of timers. Numbers are natural: counters, times and
-- targets are int64 in the code, do not wrap here, and are not negative, except the number of
-- workers asked for and the limits on virtual users, which are signed. Ramps and backoffs are in
-- nanoseconds. Goroutines are counted by where they stand (Arrival), listed (Barrier) or tasks in a
-- map (Agent), and a sequence of steps is one of their interleavings; a timer may fire at any step.
-- A nil dereference is `none`. HMAC, base64 and JSON are the record Codec of Auth.Tokens, with the
-- laws of KeepsTokens. The database is a record of rows with a flag for whether it answers; an
-- operation of the API server is a function in which the coordinator and ClickHouse answer as the
-- record Remote says; Runs.Ending.Steps takes launches, rounds of the reaper and replays also in the
-- parts between which the code lets others run. SetRunDispatch and SetRunStatus do not look at the
-- row that they write, and the steps use them for runs that have not ended only. Words of a curl command are lists of runes, those of Asserts and of addresses
-- are bytes. All loops are structural recursion on a list or on a number of rounds, so no
-- fuel is needed, but in three places: the drain of the queue recurs on the queue, since each of its
-- rounds takes a request or ends it; parseCurl's loop has as much fuel as there are words, since a
-- turn takes one at least; truncate's loop has 80, since each turn drops one of 80 bytes.
--
-- Not modelled: logging and Prometheus gauges; the text of breaker reasons and of errors, for which
-- constructors stand; the metric store's own work, of which only the rows given to it are modelled;
-- of the workers, the network side of the protocol drivers, and the making of a plan and a driver
-- from an assignment, of which only the success is an argument; the scripts; of the API server, the
-- run of the global setup, accounts, schedules, webhook cards and the handlers that only read; the other tables of the database; the importers of
-- JSON documents; the web interface.
pub mod Prelude
pub mod Dict
pub mod Scheduler
pub mod Platform
pub mod Importer
pub mod Metrics
pub mod Plan
pub mod Wire
pub mod Rollups
pub mod Breaker
pub mod Aggregator
pub mod Registry
pub mod Coordinator
pub mod Sla
pub mod RateLimit
pub mod Runs
pub mod Alert
pub mod Tests
pub mod Utf8
pub mod Sampler
pub mod Executor
pub mod Agent
pub mod Asserts
pub mod Auth
pub mod Examples
