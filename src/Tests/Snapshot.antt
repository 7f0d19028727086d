-- ===== src/Tests/Snapshot.antt =====
-- internal/apisrv/environments.go: `substituteEnv`; internal/apisrv/handlers.go: what `launchRun`
-- does before it inserts the run, and `buildRunSnapshot`. The regular expression's matches in a text
-- are an argument, and so are the run of the global setup and the JSON of ramps and datasets.
use loadify.Prelude.{
  ℕ, Bytes, ◌≡◌, refl, ap, sym, ◌∙◌, false, String, string_eq, ◌==◌, Option, none, some, List, [],
  ◌∷◌, ◌++◌, map, is_nil, if◌then◌else◌,
}
use loadify.Platform.{Platform}
use loadify.Importer.{runes_eq}
use loadify.Dict.{lookup, keys}
use loadify.Scheduler.{RampStage}
use loadify.Plan.Validation.Whole.{PlanInput, validate, Validated, valid, invalid}
use loadify.Runs.Requested.{parse_ramp}
use loadify.Tests.{Definition, Decoder}

-- A text between the placeholders, and a placeholder with its key.
pub data Piece : Type 0 where
  plain : Bytes → Piece
  token : (match key : Bytes) → Piece

abbrev pub Vars : Type 0
Vars = List (Bytes × Bytes)

unfoldable pub value_or : Bytes → Option Bytes → Bytes
value_or m none = m
value_or m (some v) = v

unfoldable pub replace_all : Vars → List Piece → Bytes
unfolding value_or
replace_all vars [] = []
replace_all vars (plain t ∷ pieces) = t ++ replace_all vars pieces
replace_all vars (token m key ∷ pieces) = value_or m (lookup key vars) ++ replace_all vars pieces

unfoldable pub substitute_env : (Bytes → List Piece) → Bytes → Vars → Bytes
unfolding replace_all
substitute_env pieces_of s vars =
    if is_nil s then s else if is_nil vars then s else replace_all vars (pieces_of s)

pub record Environment : Type 0 where
  pub name : String
  pub vars : Vars

-- The snapshot of a run: the keys that buildRunSnapshot writes, and the test's other fields.
pub record Snapshot : Type 0 where
  pub definition : Definition
  pub script : Option Bytes
  pub environment : Option (String × Vars)
  pub dataset_rows : Option ℕ

abbrev pub mask : Bytes
mask =
    226 ∷ 128 ∷ 162 ∷ 226 ∷ 128 ∷ 162 ∷ 226 ∷ 128 ∷ 162 ∷ 226 ∷ 128 ∷ 162 ∷ 226 ∷ 128 ∷ 162 ∷ 226
    ∷ 128 ∷ 162 ∷ []

unfoldable pub masked : Vars → Vars
masked vars = map (λ v. (v.0, mask)) vars

unfoldable pub rows_in : (Bytes → Option ℕ) → Option Bytes → Option ℕ
rows_in rows_of none = none
rows_in rows_of (some d) = rows_of d

-- buildRunSnapshot; the script and the dataset of the definition are not in it.
unfoldable pub build_run_snapshot :
    (Bytes → Option ℕ) → Definition → Bytes → String → Vars → Snapshot
unfolding masked rows_in
build_run_snapshot rows_of td script_js env_name env_vars = record {
  definition = record td { script_js = []; dataset = none };
  script = if is_nil script_js then none else some script_js;
  environment = if env_name == "" then none else some (env_name, masked env_vars);
  dataset_rows = rows_in rows_of td.dataset;
}

pub data Refused : Type 0 where
  test_missing test_archived environment_missing bad_plan bad_ramp setup_failed : Refused

module _ ⦃p : Platform⦄ where
  -- What the launch takes from outside; `global_setup` gives the variables that the once-global
  -- steps of a plan extract, none where it has no such step.
  pub record Launcher : Type 0 where
    pub decoder : Decoder
    pub pieces_of : Bytes → List Piece
    pub stages_of : Bytes → Option (List RampStage)
    pub rows_of : Bytes → Option ℕ
    pub global_setup : PlanInput → Option Vars

  pub record Prepared : Type 0 where
    pub plan : PlanInput
    pub plan_json : Bytes
    pub script_js : Bytes
    pub ramp : List RampStage
    pub snapshot : Snapshot

  pub data Preparation : Type 0 where
    refused : Refused → Preparation
    prepared : Prepared → Preparation

  -- plan.Parse
  abbrev plan_in : Validated → Option PlanInput
  plan_in (valid c) = some c
  plan_in (invalid e) = none

  unfoldable pub parse : Decoder → Bytes → Option PlanInput
  parse k raw = elim (k.plan_of raw) [ none ↦ none | some c ↦ plan_in (validate k.net c) ]

  -- The second parse, of the plan with the variables that the setup gave.
  unfoldable pub with_setup : Launcher → PlanInput → Bytes → Vars → Option (PlanInput × Bytes)
  unfolding parse substitute_env
  with_setup l plan raw [] = some (plan, raw)
  with_setup l plan raw (v ∷ vars) =
      let raw' = substitute_env l.pieces_of raw (v ∷ vars) in
      elim (parse l.decoder raw') [ none ↦ none | some plan' ↦ some (plan', raw') ]

  -- From the resolved environment on.
  unfoldable pub prepare_plan : Launcher → Definition → Bytes → Bytes → String → Vars → Preparation
  unfolding with_setup build_run_snapshot parse_ramp
  prepare_plan l td raw script env_name vars = elim (parse l.decoder raw) [
    | none ↦ refused bad_plan
    | some plan ↦ elim (parse_ramp (is_nil td.ramp_json) (l.stages_of td.ramp_json)) [
      | none ↦ refused bad_ramp
      | some ramp ↦ elim (l.global_setup plan) [
        | none ↦ refused setup_failed
        | some extracted ↦ elim (with_setup l plan raw extracted) [
          | none ↦ refused bad_plan
          | some done ↦ prepared (record {
            plan = done.0;
            plan_json = done.1;
            script_js = script;
            ramp = ramp;
            snapshot = build_run_snapshot l.rows_of td script env_name vars;
          })
        ]
      ]
    ]
  ]

  unfoldable pub prepare_in : Launcher → Definition → Option Environment → Preparation
  unfolding prepare_plan substitute_env
  prepare_in l td none = refused environment_missing
  prepare_in l td (some env) =
      prepare_plan l td (substitute_env l.pieces_of td.plan_json env.vars)
        (substitute_env l.pieces_of td.script_js env.vars) env.name env.vars

  -- launchRun up to the snapshot, by what the store answers for the test and the environment.
  unfoldable pub prepare : Launcher → Option Definition → String → Option Environment → Preparation
  unfolding prepare_in prepare_plan
  prepare l none env_id env = refused test_missing
  prepare l (some td) env_id env =
      if td.archived
      then refused test_archived
      else if env_id == ""
      then prepare_plan l td td.plan_json td.script_js "" []
      else prepare_in l td env

masked_of : (vars : Vars) → masked vars ≡ map (λ k. (k, mask)) (keys vars)
unfolding masked
masked_of [] = refl
masked_of (v ∷ vars) = ap (λ rest. (v.0, mask) ∷ rest) (masked_of vars)

masked-keys : (one other : Vars) → keys one ≡ keys other → masked one ≡ masked other
masked-keys one other e = masked_of one ∙ ap (map (λ k. (k, mask))) e ∙ sym (masked_of other)

-- The snapshots of a test in two environments of the same name and with the same keys, whatever
-- their values, differ in the script at most; but the script is kept with the values put in.
pub snapshot_values :
    (rows_of : Bytes → Option ℕ) (pieces_of : Bytes → List Piece) (td : Definition) (name : String)
    (one other : Vars) (kept : Option Bytes)
    → keys one ≡ keys other
    → is_nil (substitute_env pieces_of td.script_js one) ≡ false
    → let script = substitute_env pieces_of td.script_js in
      (record (build_run_snapshot rows_of td (script one) name one) { script = kept }
        ≡ record (build_run_snapshot rows_of td (script other) name other) { script = kept })
      × ((build_run_snapshot rows_of td (script one) name one).script ≡ some (script one))
unfolding build_run_snapshot
snapshot_values rows_of pieces_of td name one other kept same full = (
  ap
      (λ vars. record (build_run_snapshot rows_of td [] name []) {
        script = kept;
        environment = if name == "" then none else some (name, vars);
      })
      (masked-keys one other same),
  ap (λ b. if b then none else some (substitute_env pieces_of td.script_js one)) full,
)
