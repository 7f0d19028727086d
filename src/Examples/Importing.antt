-- ===== src/Examples/Importing.antt =====
-- A curl command, a plan, an assertion, a pause and a test.
use loadify.Prelude.{
  ◌++◌, arith, true, ℕ, ◌*◌, ◌-◌, ◌≤◌, string_eq, ◌≡◌, refl, Bytes, none, some, List, [], ◌∷◌, pos,
}
use loadify.Importer.{Req, parse_curl, has_prefix, trim_space, trim_left, trim_right, is_space}
use loadify.Importer.Words.{Word, line}
use loadify.Importer.Printed.{parse_curl-line, added}
use loadify.Plan.Validation.{
  Net, HttpConfig, http_error, validate_url, contains_template, parsed_url_error, asserts_error,
}
use loadify.Plan.Validation.Whole.{
  PlanInput, validate, valid, kind_of, numerics_error, target_error, filled_for, validated,
  filled_http, method_or_get, max_body_bytes, think_error, rendezvous_error, breaker_error,
}
use loadify.Plan.Validation.Filled.{validate-valid}
use loadify.Plan.Validation.{HttpAssert, assert_error}
use loadify.Asserts.{Library, eval_asserts, refuted, truncate}
use loadify.Asserts.Snippet.{body_exists_fails}
use loadify.Executor.Thinking.{Draw, next, uniform_of, next_in_range}
use loadify.Dict.{lookup}
use loadify.Auth.Tokens.{Claims}
use loadify.Runs.Requests.{can_mutate, owns}
use loadify.Tests.{
  Definition, Tests, Decoder, new_definition, get_definition, handle_update_test,
  handle_delete_test,
}
use loadify.Auth.Access.{
  Middleware, Request, bearer, require, claims_from, claims_raw, header_of, trim_prefix, claims_of,
  resolve_raw, answer, passes, at_least, role_rank,
}
use loadify.Auth.Tokens.{parse, parse_parts, split, onto_first}
use loadify.Tests.{post_baseline, no_content, forbidden}
use loadify.Tests.Owners.{Unowned, tests_owned, baseline_unguarded}
use loadify.Tests.Snapshot.{
  Piece, token, Vars, Snapshot, build_run_snapshot, substitute_env, replace_all, value_or,
  snapshot_values,
}
use loadify.Examples.Fixture.{whole}

-- GET http://a with the header A: b
abbrev req : Req
req = record {
  method = 71 ∷ 69 ∷ 84 ∷ [];
  url = 104 ∷ 116 ∷ 116 ∷ 112 ∷ 58 ∷ 47 ∷ 47 ∷ 97 ∷ [];
  headers = (65 ∷ [], 98 ∷ []) ∷ [];
  body = 34 ∷ [];
}

abbrev single : Bytes → Word
single t = (39, t)

abbrev words : List Word
words =
    single (99 ∷ 117 ∷ 114 ∷ 108 ∷ [])
    ∷ single (45 ∷ 88 ∷ [])
    ∷ single req.method
    ∷ single (45 ∷ 72 ∷ [])
    ∷ single (65 ∷ 58 ∷ 32 ∷ 98 ∷ [])
    ∷ single (45 ∷ 100 ∷ [])
    ∷ single req.body
    ∷ (34, req.url)
    ∷ []

parse_curl-line_example :
    parse_curl (line words) ≡ some (record req { headers = added [] req.headers })
unfolding has_prefix trim_space trim_left trim_right is_space
parse_curl-line_example =
    parse_curl-line req words (refl, refl, ((refl, refl, refl), tt))
      (
        (refl, refl, refl),
        (
          (refl, refl, refl),
          (
            (refl, refl, refl),
            (
              (refl, refl, refl),
              (
                (refl, refl, refl),
                ((refl, refl, refl), ((refl, refl, refl), ((refl, refl, refl), tt))),
              ),
            ),
          ),
        ),
      )
      refl

abbrev net : Net
net = record { parse_url = λ raw. some ("http", 97 ∷ []); split_host_port = λ raw. none }

abbrev http_config : HttpConfig
http_config = record {
  method = "";
  url = req.url;
  body = [];
  expect_status = pos 200;
  asserts = [];
}

abbrev input : PlanInput
input = record {
  protocol = "http";
  http = some http_config;
  grpc = none;
  ws = none;
  sse = none;
  scenario = none;
  think_time_ms = pos 0;
  think_time_cfg = none;
  rendezvous = none;
  auto_stop = none;
  alert = none;
  max_vus = pos 0;
  script_timeout_ms = pos 0;
  max_request_body_bytes = pos 0;
}

abbrev filled_input : PlanInput
filled_input = record input { http = some (record http_config { method = "GET" }) }

validate-valid_example : validate net filled_input ≡ valid filled_input
unfolding validate kind_of numerics_error target_error filled_for validated http_error filled_http
    method_or_get validate_url contains_template parsed_url_error asserts_error max_body_bytes
    think_error rendezvous_error breaker_error
validate-valid_example = validate-valid net input filled_input refl

abbrev checks : Library
checks = record {
  trim_space = λ s. s;
  parse_float = λ s. none;
  parse_bool = λ s. none;
  atoi = λ s. none;
  format_float = λ n. [];
  marshal = λ v. [];
  unmarshal = λ s. none;
}

body_exists_fails_example :
    let a : HttpAssert = record { source = "body"; path = []; op = "exists"; value = [] } in
    (assert_error a ≡ none)
    × (eval_asserts checks (a ∷ []) 200 (65 ∷ []) ≡ some (refuted a (truncate (65 ∷ []))))
body_exists_fails_example = body_exists_fails checks [] [] 200 (65 ∷ [])

abbrev draw : Draw
draw = record { int63n = λ n. n - 1; norm_float64 = 0; exp_float64 = 1 }

next_in_range_example :
    (n : ℕ) × (next (record { cfg = some (uniform_of 5 9); fixed = pos 0 }) draw
      ≡ pos (n * 1000000))
    × (5 ≤ n)
    × (n ≤ 9)
unfolding think_error
next_in_range_example = next_in_range 5 9 draw (pos 0) refl (omega arith) (omega arith)

abbrev definition : Definition
definition =
    new_definition
      (record {
        name = "smoke";
        protocol = "http";
        plan = [];
        ramp = [];
        script = [];
        thresholds = [];
        dataset = [];
        tags = [];
      })
      (some "alice")

abbrev tests : Tests
tests = record { up = true; rows = ("t1", definition) ∷ []; schedules = []; run_ids = "r1" ∷ [] }

abbrev bob : Claims
bob = record {
  subject = "bob";
  email = "bob@loadify";
  name = "Bob";
  role = "operator";
  issued = 0;
  expires = 0;
}

abbrev decoder : Decoder
decoder = record { net = net; plan_of = λ raw. some input; is_rows = λ raw. true }

tests_owned_example :
    Unowned tests
      (some bob)
      (handle_update_test decoder tests (some bob) "t1" none).0
      (get_definition tests "t1")
    × Unowned tests
        (some bob)
        (handle_delete_test tests (some bob) "t1").0
        (get_definition tests "t1")
tests_owned_example = tests_owned decoder tests (some bob) "t1" none

-- The session of bob is a persistent token.
abbrev middleware : Middleware
middleware = record {
  codec = record {
    sign = λ m key. [];
    b64 = λ s. s;
    unb64 = λ s. some s;
    header = [];
    marshal = λ c. [];
    unmarshal = λ s. none;
  };
  secret = 7 ∷ [];
  validate = none;
  resolve = some (λ raw. some bob);
}

abbrev from_bob : Request
from_bob = record { authorization = bearer ++ 112 ∷ []; query_token = [] }

baseline_unguarded_example :
    let t = post_baseline middleware tests from_bob 0 "t1" (some "r1") in
    (lookup "t1" t.0.rows ≡ some (record definition { baseline_run_id = some "r1" }))
    × (t.1 ≡ some no_content)
    × (handle_delete_test tests (some bob) "t1" ≡ (tests, forbidden))
unfolding lookup new_definition can_mutate owns require claims_from claims_raw header_of trim_prefix
    claims_of parse parse_parts split onto_first resolve_raw answer passes at_least role_rank
baseline_unguarded_example =
    baseline_unguarded middleware tests from_bob 0 bob "t1" "r1" definition refl refl refl refl refl
      refl

-- A text is one placeholder, whose key is the text itself.
abbrev pieces : Bytes → List Piece
pieces s = token s s ∷ []

abbrev scripted : Definition
scripted = record definition { script_js = 75 ∷ [] }

abbrev secret : Vars
secret = (75 ∷ [], 1 ∷ []) ∷ []

abbrev other_secret : Vars
other_secret = (75 ∷ [], 2 ∷ []) ∷ []

abbrev snapshot_of : Vars → Snapshot
snapshot_of vars =
    build_run_snapshot (λ d. none) scripted (substitute_env pieces (75 ∷ []) vars) "staging" vars

snapshot_values_example :
    (record (snapshot_of secret) { script = none }
      ≡ record (snapshot_of other_secret) { script = none })
    × ((snapshot_of secret).script ≡ some (substitute_env pieces (75 ∷ []) secret))
unfolding substitute_env replace_all value_or lookup
snapshot_values_example =
    snapshot_values (λ d. none) pieces scripted "staging" secret other_secret none refl refl
