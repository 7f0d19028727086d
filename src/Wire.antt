-- ===== src/Wire.antt =====
-- The messages of api/proto/loadify/v1 (common.proto, metrics.proto, worker.proto,
-- coordinator.proto). Numbers are natural except where the program tests for a sign, `bytes` are
-- lists of numbers. The plan of a request stands as what `plan.Parse` makes of its JSON.
use loadify.Prelude.{
  ℕ, Bytes, ◌≡◌, ◌↔◌, Bool, true, String, List, Option, arith, Comparable, eqb, ℤ,
}
use loadify.Platform.{Platform}
use loadify.Plan.{Plan}
use loadify.Scheduler.{RampStage}

pub data Protocol : Type 0 where
  unspecified http https grpc websocket sse : Protocol

-- The enum's number.
abbrev pub protocol_number : Protocol → ℕ
protocol_number unspecified = 0
protocol_number http = 1
protocol_number https = 2
protocol_number grpc = 3
protocol_number websocket = 4
protocol_number sse = 5

-- The name that the generated `String` method prints.
unfoldable pub protocol_name : Protocol → String
protocol_name unspecified = "PROTOCOL_UNSPECIFIED"
protocol_name http = "PROTOCOL_HTTP"
protocol_name https = "PROTOCOL_HTTPS"
protocol_name grpc = "PROTOCOL_GRPC"
protocol_name websocket = "PROTOCOL_WEBSOCKET"
protocol_name sse = "PROTOCOL_SSE"

abbrev protocol_beq : Protocol → Protocol → Bool
protocol_beq a b = eqb (protocol_number a) (protocol_number b)

pub protocol_beq_iff : (a b : Protocol) → (protocol_beq a b ≡ true) ↔ (a ≡ b)
protocol_beq_iff a b = ground arith

instance abbrev pub protocol_eq : Comparable Protocol
protocol_eq = record { same = protocol_beq; same_iff = protocol_beq_iff }

pub data RunStatus : Type 0 where
  unset pending running completed failed aborted queued : RunStatus

pub record Sample : Type 0 where
  pub ts_unix_ms : ℕ
  pub group : String
  pub protocol : Protocol
  pub status : ℕ
  pub ok : Bool
  pub latency_us : ℕ
  pub dns_us : ℕ
  pub connect_us : ℕ
  pub tls_us : ℕ
  pub ttfb_us : ℕ
  pub sent_bytes : ℕ
  pub recv_bytes : ℕ
  pub error_kind : Bytes
  pub method : String
  pub url : Bytes
  pub resp_body : Bytes
  pub req_body : Bytes

pub record AggSlice : Type 0 where
  pub group : String
  pub protocol : Protocol
  pub status_class : String
  pub count : ℕ
  pub errors : ℕ
  pub sent_bytes : ℕ
  pub recv_bytes : ℕ
  pub hdr_histogram : List ℕ

pub record MetricBatch : Type 0 where
  pub run_id : String
  pub worker_id : String
  pub bucket_unix_ms : ℕ
  pub active_vus : ℕ
  pub samples : List Sample
  pub agg : List AggSlice

pub record ActiveRun : Type 0 where
  pub run_id : String
  pub protocol : Protocol

pub record RegisterRequest : Type 0 where
  pub worker_id : String
  pub region : String
  pub cpu_cores : ℕ
  pub supported : List Protocol
  pub active_runs : List ActiveRun

pub record RunFinished : Type 0 where
  pub run_id : String
  pub worker_id : String
  pub final_count : ℕ
  pub dropped_iterations : ℕ
  pub dropped_metrics : ℕ

module _ ⦃p : Platform⦄ where
  -- What the coordinator passes on to the workers; `plan` is what `plan.Parse` makes of
  -- `plan_json`, `none` where that is an error.
  pub record Payload : Type 0 where
    pub plan_json : List ℕ
    pub plan : Option Plan
    pub script : Option (List ℕ)
    pub env : List (String × String)

  pub record RunAssignment : Type 0 where
    pub run_id : String
    pub protocol : Protocol
    pub payload : Payload
    pub ramp : List RampStage
    pub start_at_unix_ms : ℕ
    pub seed : ℕ

  pub data CoordinatorMessage : Type 0 where
    register_ack : (lease_id : String) (heartbeat_interval_ms : ℕ) → CoordinatorMessage
    assignment : RunAssignment → CoordinatorMessage
    stop : (run_id : String) (graceful : Bool) → CoordinatorMessage

  pub record StartRunRequest : Type 0 where
    pub run_id : String
    pub protocol : Protocol
    pub payload : Payload
    pub ramp : List RampStage
    pub desired_workers : ℤ
