-- ===== src/Tests.antt =====
-- The test definitions: their rows in internal/store/postgres/postgres.go, and the handlers of
-- internal/apisrv/handlers.go that write them. A JSON column is its bytes; the store answers while
-- `up`.
pub mod Owners
pub mod Snapshot
use loadify.Prelude.{
  ℕ, Bytes, Bool, true, false, not, ◌||◌, String, string_eq, ◌==◌, Option, none, some, List, [],
  ◌∷◌, map, is_nil, if◌then◌else◌,
}
use loadify.Platform.{Platform}
use loadify.Dict.{lookup, insert}
use loadify.Auth.Access.{Middleware, Request, Answer, served, require}
use loadify.Auth.Tokens.{Claims}
use loadify.Plan.Validation.{Net}
use loadify.Plan.Validation.Whole.{PlanInput, Validated, valid, invalid, validate}
use loadify.Runs.Requests.{can_mutate}
use loadify.Runs.Requested.{normalize_tags}

pub record Definition : Type 0 where
  pub name : String
  pub protocol : String
  pub plan_json : Bytes
  pub ramp_json : Bytes
  pub script_js : Bytes
  pub thresholds : Bytes
  pub dataset : Option Bytes
  pub created_by : Option String
  pub archived : Bool
  pub baseline_run_id : Option String
  pub tags : List Bytes

pub record Schedule : Type 0 where
  pub test_def_id : String
  pub enabled : Bool

pub record Tests : Type 0 where
  pub up : Bool
  pub rows : List (String × Definition)
  pub schedules : List Schedule
  -- The runs that a baseline may name: its column is a foreign key.
  pub run_ids : List String

-- createTestReq as it is decoded.
pub record CreateTestReq : Type 0 where
  pub name : String
  pub protocol : String
  pub plan : Bytes
  pub ramp : Bytes
  pub script : Bytes
  pub thresholds : Bytes
  pub dataset : Bytes
  pub tags : List Bytes

-- What the two writes make of empty thresholds, "[]", and of an empty dataset.
unfoldable pub thresholds_or_none : Bytes → Bytes
thresholds_or_none t = if is_nil t then 91 ∷ 93 ∷ [] else t

unfoldable pub dataset_or_null : Bytes → Option Bytes
dataset_or_null d = if is_nil d then none else some d

-- CreateTestDefinition, for the fields that the handler fills in.
unfoldable pub new_definition : CreateTestReq → Option String → Definition
unfolding thresholds_or_none dataset_or_null normalize_tags
new_definition q caller = record {
  name = q.name;
  protocol = q.protocol;
  plan_json = q.plan;
  ramp_json = q.ramp;
  script_js = q.script;
  thresholds = thresholds_or_none q.thresholds;
  dataset = dataset_or_null q.dataset;
  created_by = caller;
  archived = false;
  baseline_run_id = none;
  tags = normalize_tags q.tags;
}

unfoldable pub create_test_definition : Tests → String → Definition → Option Tests
create_test_definition s id d = if s.up then some (record s { rows = insert id d s.rows }) else none

-- UpdateTestDefinition; `none` is an error, no row that is not archived included.
unfoldable pub edited : CreateTestReq → Definition → Definition
unfolding thresholds_or_none dataset_or_null normalize_tags
edited q d = record d {
  name = q.name;
  protocol = q.protocol;
  plan_json = q.plan;
  ramp_json = q.ramp;
  script_js = q.script;
  thresholds = thresholds_or_none q.thresholds;
  dataset = dataset_or_null q.dataset;
  tags = normalize_tags q.tags;
}

unfoldable pub update_found : Tests → String → CreateTestReq → Option Definition → Option Tests
unfolding edited
update_found s id q none = none
update_found s id q (some d) =
    if d.archived then none else some (record s { rows = insert id (edited q d) s.rows })

-- GetTestDefinition with all columns.
unfoldable pub get_definition : Tests → String → Option Definition
get_definition s id = if s.up then lookup id s.rows else none

unfoldable pub update_test_definition : Tests → String → CreateTestReq → Option Tests
unfolding update_found get_definition
update_test_definition s id q = update_found s id q (get_definition s id)

-- ArchiveTestDefinition
unfoldable pub disabled_for : String → Schedule → Schedule
disabled_for id sc = if sc.test_def_id == id then record sc { enabled = false } else sc

unfoldable pub archive_found : Tests → String → Option Definition → Option Tests
unfolding disabled_for
archive_found s id none = none
archive_found s id (some d) =
    let schedules' = map (disabled_for id) s.schedules in
    some
      (record s { rows = insert id (record d { archived = true }) s.rows; schedules = schedules' })

unfoldable pub archive_test_definition : Tests → String → Option Tests
unfolding archive_found get_definition
archive_test_definition s id = archive_found s id (get_definition s id)

-- SetBaseline
abbrev pub is_known : String → List String → Bool
is_known id [] = false
is_known id (r ∷ runs) = (r == id) || is_known id runs

unfoldable pub baseline_found : Tests → String → String → Option Definition → Option Tests
baseline_found s id run_id none = none
baseline_found s id run_id (some d) =
    if run_id == ""
    then some (record s { rows = insert id (record d { baseline_run_id = none }) s.rows })
    else if is_known run_id s.run_ids
    then some (record s { rows = insert id (record d { baseline_run_id = some run_id }) s.rows })
    else none

unfoldable pub set_baseline : Tests → String → String → Option Tests
unfolding baseline_found get_definition
set_baseline s id run_id = baseline_found s id run_id (get_definition s id)

-- The answers, by their HTTP status.
pub data Answered : Type 0 where
  bad_request not_found forbidden internal_error created no_content : Answered

-- Behind a write of the store, by the answer to its error.
unfoldable pub stored : Tests → Answered → Answered → Option Tests → Tests × Answered
stored s failure success none = (s, failure)
stored s failure success (some t) = (t, success)

-- callerID
unfoldable pub caller_id : Option Claims → Option String
caller_id none = none
caller_id (some c) = if c.subject == "" then none else some c.subject

-- denyIfNotOwner before a write.
unfoldable pub owned : Tests → Option Claims → Option Definition → Option Tests → Tests × Answered
unfolding stored
owned s caller none written = (s, not_found)
owned s caller (some d) written =
    if can_mutate caller d.created_by then stored s not_found no_content written else (s, forbidden)

-- handleDeleteTest
unfoldable pub handle_delete_test : Tests → Option Claims → String → Tests × Answered
unfolding owned archive_test_definition
handle_delete_test s caller id = owned s caller (get_definition s id) (archive_test_definition s id)

-- handleSetBaseline; the body of a request that is no JSON is `none`.
unfoldable pub handle_set_baseline :
    Tests → Option Claims → String → Option String → Tests × Answered
unfolding stored set_baseline
handle_set_baseline s caller id none = (s, bad_request)
handle_set_baseline s caller id (some run_id) =
    stored s not_found no_content (set_baseline s id run_id)

-- A handler behind a guard; the answer is `none` where the guard refuses the request itself.
unfoldable pub guarded :
    Answer → Tests → (Option Claims → Tests × Answered) → Tests × Option Answered
guarded (served c) s handler = let (t, a) = handler (some c) in (t, some a)
guarded _ s handler = (s, none)

-- The route of handleSetBaseline.
unfoldable pub post_baseline :
    Middleware → Tests → Request → ℕ → String → Option String → Tests × Option Answered
unfolding guarded
post_baseline m s r now id body =
    guarded (require m "operator" r now) s (λ caller. handle_set_baseline s caller id body)

module _ ⦃p : Platform⦄ where
  -- json.Unmarshal of a plan, and whether a dataset is a JSON array of objects.
  pub record Decoder : Type 0 where
    pub net : Net
    pub plan_of : Bytes → Option PlanInput
    pub is_rows : Bytes → Bool

  abbrev accepted : Validated → Bool
  accepted (valid c) = true
  accepted (invalid e) = false

  -- plan.Parse, as far as whether it succeeds, and validateDataset.
  unfoldable pub parses : Decoder → Bytes → Bool
  parses k raw = elim (k.plan_of raw) [ none ↦ false | some c ↦ accepted (validate k.net c) ]

  unfoldable pub validate_dataset : Decoder → Bytes → Bool
  validate_dataset k raw = if is_nil raw then true else k.is_rows raw

  -- handleCreateTest, for the id that the database makes.
  unfoldable pub handle_create_test :
      Decoder → Tests → Option Claims → String → Option CreateTestReq → Tests × Answered
  unfolding parses validate_dataset stored create_test_definition new_definition caller_id
  handle_create_test k s caller id none = (s, bad_request)
  handle_create_test k s caller id (some q) =
      if not (parses k q.plan)
      then (s, bad_request)
      else if not (validate_dataset k q.dataset)
      then (s, bad_request)
      else stored s internal_error created
          (create_test_definition s id (new_definition q (caller_id caller)))

  -- handleUpdateTest
  unfoldable pub handle_update_test :
      Decoder → Tests → Option Claims → String → Option CreateTestReq → Tests × Answered
  unfolding parses validate_dataset owned update_test_definition
  handle_update_test k s caller id none = (s, bad_request)
  handle_update_test k s caller id (some q) =
      if not (parses k q.plan)
      then (s, bad_request)
      else if not (validate_dataset k q.dataset)
      then (s, bad_request)
      else owned s caller (get_definition s id) (update_test_definition s id q)
