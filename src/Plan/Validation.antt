-- ===== src/Plan/Validation.antt =====
-- internal/plan/plan.go: `Validate` with all that it calls, and the defaults that it writes. A plan
-- is here what json.Unmarshal leaves; addresses and bodies are bytes. An error is a constructor in
-- place of its text; steps count from 1.
pub mod Whole
pub mod Filled
use loadify.Prelude.{
  ℕ, suc, ◌+◌, ◌*◌, ◌^◌, Bytes, Bool, true, false, not, ◌&&◌, ◌||◌, String, string_eq, ◌==◌, Option,
  none, some, List, [], ◌∷◌, map, ltb, eqb, is_nil, length, if◌then◌else◌, ℤ, pos, negsuc,
}
use loadify.Platform.{Platform, Float, float}

pub data PlanError : Type 0 where
  think_time max_vus script_timeout max_body think_values think_uniform : PlanError
  rendezvous_vus rendezvous_timeout error_rate window requests : PlanError
  http_missing url_missing url_malformed url_without_host url_scheme expect_status : PlanError
  body_too_large grpc_missing host_port max_messages unknown_protocol : PlanError
  no_steps scenario_mode assert_source assert_op assert_status_op assert_path assert_value :
      PlanError
  in_step : (step : ℕ) (e : PlanError) → PlanError
  scope extract : PlanError

-- url.Parse as far as it is read, and net.SplitHostPort; `none` is an error.
pub record Net : Type 0 where
  pub parse_url : Bytes → Option (String × Bytes)
  pub split_host_port : Bytes → Option (Bytes × Bytes)

pub record HttpAssert : Type 0 where
  pub source : String
  pub path : Bytes
  pub op : String
  pub value : Bytes

pub record HttpConfig : Type 0 where
  pub method : String
  pub url : Bytes
  pub body : Bytes
  pub expect_status : ℤ
  pub asserts : List HttpAssert

pub record GrpcConfig : Type 0 where
  pub target : Bytes
  pub full_method : String
  pub request_json : Bytes
  pub max_messages : ℤ

pub record ScenarioStep : Type 0 where
  pub weight : ℤ
  pub method : String
  pub url : Bytes
  pub body : Bytes
  pub extracts : List (String × String)
  pub asserts : List HttpAssert
  pub scope : String

pub record ScenarioConfig : Type 0 where
  pub mode : String
  pub steps : List ScenarioStep

pub record ThinkTimeConfig : Type 0 where
  pub distribution : String
  pub min_ms : ℤ
  pub max_ms : ℤ
  pub mean_ms : ℤ
  pub stddev_ms : ℤ

pub record RendezvousConfig : Type 0 where
  pub vus : ℤ
  pub timeout_ms : ℤ

abbrev pub is_negative : ℤ → Bool
is_negative (pos n) = false
is_negative (negsuc n) = true

abbrev pub is_zero_int : ℤ → Bool
is_zero_int (pos n) = eqb n 0
is_zero_int (negsuc n) = false

-- Whether the first is below the second.
abbrev pub is_below : ℤ → ℤ → Bool
is_below (pos m) (pos n) = ltb m n
is_below (pos m) (negsuc n) = false
is_below (negsuc m) (pos n) = true
is_below (negsuc m) (negsuc n) = ltb n m

-- A test of a chain of tests that each return an error.
abbrev pub reject : Bool → PlanError → Option PlanError → Option PlanError
reject true e next = some e
reject false e next = next

abbrev pub or_else : Option PlanError → Option PlanError → Option PlanError
or_else none next = next
or_else (some e) next = some e

abbrev pub is_any : String → List String → Bool
is_any s [] = false
is_any s (name ∷ names) = (s == name) || is_any s names

-- HTTPAssert.Validate
unfoldable pub assert_error : HttpAssert → Option PlanError
assert_error a = reject (not (is_any a.source ("status" ∷ "body" ∷ "json" ∷ []))) assert_source (
    reject
      (not (is_any a.op ("eq" ∷ "ne" ∷ "gt" ∷ "lt" ∷ "gte" ∷ "lte" ∷ "contains" ∷ "exists" ∷ [])))
      assert_op
      (reject
        ((a.source == "status")
          && not (is_any a.op ("eq" ∷ "ne" ∷ "gt" ∷ "lt" ∷ "gte" ∷ "lte" ∷ [])))
        assert_status_op
        (reject ((a.source == "json") && is_nil a.path) assert_path (
          reject (not (a.op == "exists") && is_nil a.value && not (a.source == "body")) assert_value
            none))))

unfoldable pub asserts_error : List HttpAssert → Option PlanError
unfolding assert_error
asserts_error [] = none
asserts_error (a ∷ asserts) = or_else (assert_error a) (asserts_error asserts)

-- strings.Contains(raw, "{{"); `held` is whether a brace stands before.
unfoldable pub contains_template : Bool → Bytes → Bool
contains_template held [] = false
contains_template held (c ∷ s) = (held && eqb c 123) || contains_template (eqb c 123) s

-- validateURL
unfoldable pub parsed_url_error : Option (String × Bytes) → List String → Option PlanError
parsed_url_error none schemes = some url_malformed
parsed_url_error (some (scheme, host)) schemes =
    reject (is_nil host) url_without_host (reject (not (is_any scheme schemes)) url_scheme none)

unfoldable pub validate_url : Net → Bytes → List String → Option PlanError
unfolding contains_template parsed_url_error
validate_url net raw schemes =
    if contains_template false raw then none else parsed_url_error (net.parse_url raw) schemes

-- validateHostPort
unfoldable pub split_error : Option (Bytes × Bytes) → Option PlanError
split_error none = some host_port
split_error (some (host, port)) = reject (is_nil host || is_nil port) host_port none

unfoldable pub validate_host_port : Net → Bytes → Option PlanError
unfolding contains_template split_error
validate_host_port net target =
    if contains_template false target then none else split_error (net.split_host_port target)

abbrev pub http_schemes : List String
http_schemes = "http" ∷ "https" ∷ []

-- The cases of Validate for a protocol, from its configuration.
unfoldable pub http_error : Net → ℕ → Option HttpConfig → Option PlanError
unfolding validate_url asserts_error
http_error net limit none = some http_missing
http_error net limit (some c) = reject (is_nil c.url) url_missing (
    or_else (validate_url net c.url http_schemes) (
      reject
        (not (is_zero_int c.expect_status)
          && (is_below c.expect_status (pos 100) || is_below (pos 599) c.expect_status))
        expect_status
        (reject (ltb limit (length c.body)) body_too_large (asserts_error c.asserts))))

unfoldable pub grpc_error : Net → ℕ → Option GrpcConfig → Option PlanError
unfolding validate_host_port
grpc_error net limit none = some grpc_missing
grpc_error net limit (some c) = reject (is_nil c.target || (c.full_method == "")) grpc_missing (
    or_else (validate_host_port net c.target) (
      reject (is_negative c.max_messages) max_messages
        (reject (ltb limit (length c.request_json)) body_too_large none)))

-- The URL of a WebSocket or an SSE configuration.
unfoldable pub stream_error : Net → List String → Option Bytes → Option PlanError
unfolding validate_url
stream_error net schemes none = some url_missing
stream_error net schemes (some url) = reject (is_nil url) url_missing (validate_url net url schemes)

unfoldable pub extracts_error : List (String × String) → Option PlanError
extracts_error [] = none
extracts_error ((var, path) ∷ extracts) =
    reject ((var == "") || (path == "")) extract (extracts_error extracts)

-- %w of an error of a step.
abbrev pub wrapped : ℕ → Option PlanError → Option PlanError
wrapped i none = none
wrapped i (some e) = some (in_step i e)

unfoldable pub step_error : Net → ℕ → ScenarioStep → Option PlanError
unfolding validate_url asserts_error extracts_error
step_error net i st = reject (is_nil st.url) (in_step i url_missing) (
    or_else (wrapped i (validate_url net st.url http_schemes)) (
      reject (not (is_any st.scope ("" ∷ "once_per_vu" ∷ "once_global" ∷ []))) (in_step i scope)
        (or_else (asserts_error st.asserts) (extracts_error st.extracts))))

unfoldable pub steps_error : Net → ℕ → List ScenarioStep → Option PlanError
unfolding step_error
steps_error net i [] = none
steps_error net i (st ∷ steps) = or_else (step_error net i st) (steps_error net (suc i) steps)

unfoldable pub bodies_error : ℕ → ℕ → List ScenarioStep → Option PlanError
bodies_error limit i [] = none
bodies_error limit i (st ∷ steps) =
    reject (ltb limit (length st.body)) (in_step i body_too_large)
      (bodies_error limit (suc i) steps)

-- ScenarioConfig.validate, and with the test of the bodies behind it.
unfoldable pub scenario_error : Net → Option ScenarioConfig → Option PlanError
unfolding steps_error
scenario_error net none = some no_steps
scenario_error net (some c) = reject (is_nil c.steps) no_steps (
    reject (not (is_any c.mode ("sequence" ∷ "weighted" ∷ []))) scenario_mode
      (steps_error net 1 c.steps))

unfoldable pub scenario_bodies_error : ℕ → Option ScenarioConfig → Option PlanError
unfolding bodies_error
scenario_bodies_error limit none = none
scenario_bodies_error limit (some c) = bodies_error limit 1 c.steps
