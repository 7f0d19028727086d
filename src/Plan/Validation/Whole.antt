-- ===== src/Plan/Validation/Whole.antt =====
-- internal/plan/plan.go: `Validate` and `validateNumerics` over the parts, with what they fill in.
use loadify.Prelude.{
  ℕ, ◌^◌, Bytes, ◌&&◌, ◌||◌, String, string_eq, ◌==◌, Option, none, some, ◌∷◌, map, ltb,
  if◌then◌else◌, ℤ, pos, negsuc,
}
use loadify.Platform.{Platform, Float, float}
use loadify.Plan.Validation.{
  PlanError, Net, HttpConfig, GrpcConfig, ScenarioStep, ScenarioConfig, ThinkTimeConfig,
  RendezvousConfig, is_negative, is_below, reject, or_else, is_any, http_schemes, http_error,
  grpc_error, stream_error, scenario_error, scenario_bodies_error, think_time, max_vus,
  script_timeout, max_body, think_values, think_uniform, rendezvous_vus, rendezvous_timeout,
  error_rate, window, requests, unknown_protocol,
}

-- The protocols that Validate tells apart.
pub data Kind : Type 0 where
  http grpc websocket sse script scenario unknown : Kind

unfoldable pub kind_of : String → Kind
kind_of protocol =
    if is_any protocol http_schemes
    then http
    else if protocol == "grpc"
    then grpc
    else if protocol == "websocket"
    then websocket
    else if protocol == "sse"
    then sse
    else if protocol == "script"
    then script
    else if protocol == "scenario"
    then scenario
    else unknown

-- What Validate fills in.
unfoldable pub method_or_get : String → String
method_or_get method = if method == "" then "GET" else method

unfoldable pub filled_http : HttpConfig → HttpConfig
unfolding method_or_get
filled_http c = record c { method = method_or_get c.method }

unfoldable pub filled_weight : String → ℤ → ℤ
filled_weight mode weight =
    if (mode == "weighted") && is_below weight (pos 1) then pos 1 else weight

unfoldable pub filled_step : String → ScenarioStep → ScenarioStep
unfolding method_or_get filled_weight
filled_step mode st = record st {
  method = method_or_get st.method;
  weight = filled_weight mode st.weight;
}

unfoldable pub filled_scenario : ScenarioConfig → ScenarioConfig
unfolding filled_step
filled_scenario c = record c { steps = map (filled_step c.mode) c.steps }

abbrev pub option_map {ℓ} : {A : Type ℓ} → (A → A) → Option A → Option A
option_map f none = none
option_map f (some a) = some (f a)

abbrev pub default_max_request_body : ℕ
default_max_request_body = 2 ^ 20

-- maxBodyBytes and ScriptTimeout (in milliseconds).
unfoldable pub max_body_bytes : ℤ → ℕ
max_body_bytes (pos n) = if ltb 0 n then n else default_max_request_body
max_body_bytes (negsuc n) = default_max_request_body

unfoldable pub script_timeout_ms : ℤ → ℕ
script_timeout_ms (pos n) = if ltb 0 n then n else 30_000
script_timeout_ms (negsuc n) = 30_000

-- The parts of validateNumerics.
unfoldable pub think_error : Option ThinkTimeConfig → Option PlanError
think_error none = none
think_error (some t) =
    reject
      (is_negative t.min_ms
        || is_negative t.max_ms
        || is_negative t.mean_ms
        || is_negative t.stddev_ms)
      think_values
      (reject ((t.distribution == "uniform") && is_below t.max_ms t.min_ms) think_uniform none)

unfoldable pub rendezvous_error : Option RendezvousConfig → Option PlanError
rendezvous_error none = none
rendezvous_error (some r) =
    reject (is_negative r.vus) rendezvous_vus
      (reject (is_negative r.timeout_ms) rendezvous_timeout none)

module _ ⦃p : Platform⦄ where
  -- The knobs that AutoStopConfig and AlertConfig have alike.
  pub record BreakerFields : Type 0 where
    pub error_rate_pct : Float
    pub window_sec : ℤ
    pub min_requests : ℤ

  pub record PlanInput : Type 0 where
    pub protocol : String
    pub http : Option HttpConfig
    pub grpc : Option GrpcConfig
    pub ws : Option Bytes
    pub sse : Option Bytes
    pub scenario : Option ScenarioConfig
    pub think_time_ms : ℤ
    pub think_time_cfg : Option ThinkTimeConfig
    pub rendezvous : Option RendezvousConfig
    pub auto_stop : Option BreakerFields
    pub alert : Option BreakerFields
    pub max_vus : ℤ
    pub script_timeout_ms : ℤ
    pub max_request_body_bytes : ℤ

  -- validateBreakerFields, and for a configuration that may be absent.
  unfoldable pub breaker_error : Option BreakerFields → Option PlanError
  breaker_error none = none
  breaker_error (some c) =
      reject (p.lt_float c.error_rate_pct (float 0) || p.lt_float (float 100) c.error_rate_pct)
        error_rate
        (reject (is_negative c.window_sec) window
          (reject (is_negative c.min_requests) requests none))

  -- validateNumerics
  unfoldable pub numerics_error : PlanInput → Option PlanError
  unfolding think_error rendezvous_error breaker_error
  numerics_error c = reject (is_negative c.think_time_ms) think_time (
      reject (is_negative c.max_vus) max_vus (
        reject (is_negative c.script_timeout_ms) script_timeout (
          reject (is_negative c.max_request_body_bytes) max_body (
            or_else (think_error c.think_time_cfg) (
              or_else (rendezvous_error c.rendezvous)
                (or_else (breaker_error c.auto_stop) (breaker_error c.alert)))))))

  unfoldable pub target_error : Net → Kind → PlanInput → Option PlanError
  unfolding http_error grpc_error stream_error scenario_error scenario_bodies_error
  target_error net http c = http_error net (max_body_bytes c.max_request_body_bytes) c.http
  target_error net grpc c = grpc_error net (max_body_bytes c.max_request_body_bytes) c.grpc
  target_error net websocket c = stream_error net ("ws" ∷ "wss" ∷ http_schemes) c.ws
  target_error net sse c = stream_error net http_schemes c.sse
  target_error net script c = none
  target_error net scenario c =
      or_else (scenario_error net c.scenario)
        (scenario_bodies_error (max_body_bytes c.max_request_body_bytes) c.scenario)
  target_error net unknown c = some unknown_protocol

  unfoldable pub filled_for : Kind → PlanInput → PlanInput
  unfolding filled_http filled_scenario
  filled_for http c = record c { http = option_map filled_http c.http }
  filled_for scenario c = record c { scenario = option_map filled_scenario c.scenario }
  filled_for _ c = c

  -- Validate; Parse drops a plan that has an error, so that nothing is filled in there.
  pub data Validated : Type 0 where
    invalid : PlanError → Validated
    valid : PlanInput → Validated

  unfoldable pub validated : Option PlanError → PlanInput → Validated
  validated none c = valid c
  validated (some e) c = invalid e

  unfoldable pub validate : Net → PlanInput → Validated
  unfolding numerics_error target_error filled_for validated kind_of
  validate net c =
      let kind = kind_of c.protocol in
      validated (or_else (numerics_error c) (target_error net kind c)) (filled_for kind c)
