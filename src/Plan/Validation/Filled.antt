-- ===== src/Plan/Validation/Filled.antt =====
-- A plan that Validate accepts is accepted again as it then stands, with every default in place.
use loadify.Prelude.{
  ℕ, suc, ◌≡◌, refl, ap, sym, ◌∙◌, subst, inl, inr, Bool, true, false, not, String, string_eq, ◌==◌,
  Option, none, some, List, [], ◌∷◌, map, ltb, is_nil, length, ℤ, arith, Bool-cases,
}
use loadify.Platform.{Platform}
use loadify.Plan.Validation.{
  Net, PlanError, HttpConfig, ScenarioConfig, ScenarioStep, or_else, reject, is_any, no_steps,
  scenario_mode, http_error, step_error, steps_error, bodies_error, scenario_error,
  scenario_bodies_error,
}
use loadify.Plan.Validation.Whole.{
  Kind, http, grpc, websocket, sse, script, scenario, unknown, kind_of, method_or_get, filled_http,
  filled_weight, filled_step, filled_scenario, option_map, max_body_bytes, PlanInput,
  numerics_error, target_error, filled_for, Validated, invalid, valid, validated, validate,
}

method_or_get-same : (m : String) → method_or_get (method_or_get m) ≡ method_or_get m
unfolding method_or_get
method_or_get-same m = elim (Bool-cases (m == "")) [ inl e ↦ rw e refl | inr e ↦ rw (e, e) refl ]

filled_weight-same :
    (mode : String) (w : ℤ) → filled_weight mode (filled_weight mode w) ≡ filled_weight mode w
unfolding filled_weight
filled_weight-same mode w = ground arith

filled_step-same :
    (mode : String) (st : ScenarioStep)
    → filled_step mode (filled_step mode st) ≡ filled_step mode st
unfolding filled_step
filled_step-same mode st =
    ap (λ m. record (filled_step mode (filled_step mode st)) { method = m })
      (method_or_get-same st.method)
    ∙ ap (λ w. record (filled_step mode st) { weight = w }) (filled_weight-same mode st.weight)

filled_steps-same :
    (mode : String) (steps : List ScenarioStep)
    → map (filled_step mode) (map (filled_step mode) steps) ≡ map (filled_step mode) steps
filled_steps-same mode [] = refl
filled_steps-same mode (st ∷ steps) =
    ap (λ s. s ∷ map (filled_step mode) (map (filled_step mode) steps)) (filled_step-same mode st)
    ∙ ap (λ rest. filled_step mode st ∷ rest) (filled_steps-same mode steps)

steps_error-filled :
    (net : Net) (i : ℕ) (mode : String) (steps : List ScenarioStep)
    → steps_error net i (map (filled_step mode) steps) ≡ steps_error net i steps
unfolding steps_error step_error filled_step
steps_error-filled net i mode [] = refl
steps_error-filled net i mode (st ∷ steps) =
    ap (or_else (step_error net i st)) (steps_error-filled net (suc i) mode steps)

bodies_error-filled :
    (limit i : ℕ) (mode : String) (steps : List ScenarioStep)
    → bodies_error limit i (map (filled_step mode) steps) ≡ bodies_error limit i steps
unfolding bodies_error filled_step
bodies_error-filled limit i mode [] = refl
bodies_error-filled limit i mode (st ∷ steps) =
    ap (reject (ltb limit (length st.body)) _) (bodies_error-filled limit (suc i) mode steps)

is_nil-map :
    (mode : String) (steps : List ScenarioStep)
    → is_nil (map (filled_step mode) steps) ≡ is_nil steps
is_nil-map mode [] = refl
is_nil-map mode (st ∷ steps) = refl

scenario_error-filled :
    (net : Net) (o : Option ScenarioConfig)
    → scenario_error net (option_map filled_scenario o) ≡ scenario_error net o
unfolding scenario_error filled_scenario
scenario_error-filled net none = refl
scenario_error-filled net (some c) =
    let steps = map (filled_step c.mode) c.steps in
    let moded = not (is_any c.mode ("sequence" ∷ "weighted" ∷ [])) in
    ap (λ b. reject b no_steps (reject moded scenario_mode (steps_error net 1 steps)))
      (is_nil-map c.mode c.steps)
    ∙ ap (λ e. reject (is_nil c.steps) no_steps (reject moded scenario_mode e))
        (steps_error-filled net 1 c.mode c.steps)

bodies-filled :
    (limit : ℕ) (o : Option ScenarioConfig)
    → scenario_bodies_error limit (option_map filled_scenario o) ≡ scenario_bodies_error limit o
unfolding scenario_bodies_error filled_scenario
bodies-filled limit none = refl
bodies-filled limit (some c) = bodies_error-filled limit 1 c.mode c.steps

http_error-filled :
    (net : Net) (limit : ℕ) (o : Option HttpConfig)
    → http_error net limit (option_map filled_http o) ≡ http_error net limit o
unfolding http_error filled_http
http_error-filled net limit none = refl
http_error-filled net limit (some c) = refl

filled_http-same :
    (o : Option HttpConfig)
    → option_map filled_http (option_map filled_http o) ≡ option_map filled_http o
unfolding filled_http
filled_http-same none = refl
filled_http-same (some c) = ap (λ m. some (record c { method = m })) (method_or_get-same c.method)

filled_scenario-same :
    (o : Option ScenarioConfig)
    → option_map filled_scenario (option_map filled_scenario o) ≡ option_map filled_scenario o
unfolding filled_scenario
filled_scenario-same none = refl
filled_scenario-same (some c) =
    ap (λ s. some (record c { steps = s })) (filled_steps-same c.mode c.steps)

module _ ⦃p : Platform⦄ where
  filled_for-same : (k : Kind) (c : PlanInput) → filled_for k (filled_for k c) ≡ filled_for k c
  unfolding filled_for
  filled_for-same http c = ap (λ o. record c { http = o }) (filled_http-same c.http)
  filled_for-same scenario c = ap (λ o. record c { scenario = o }) (filled_scenario-same c.scenario)
  filled_for-same grpc c = refl
  filled_for-same websocket c = refl
  filled_for-same sse c = refl
  filled_for-same script c = refl
  filled_for-same unknown c = refl

  target_error-filled :
      (net : Net) (k : Kind) (c : PlanInput)
      → target_error net k (filled_for k c) ≡ target_error net k c
  unfolding filled_for target_error
  target_error-filled net http c =
      http_error-filled net (max_body_bytes c.max_request_body_bytes) c.http
  target_error-filled net scenario c =
      let limit = max_body_bytes c.max_request_body_bytes in
      ap (λ e. or_else e (scenario_bodies_error limit (option_map filled_scenario c.scenario)))
        (scenario_error-filled net c.scenario)
      ∙ ap (or_else (scenario_error net c.scenario)) (bodies-filled limit c.scenario)
  target_error-filled net grpc c = refl
  target_error-filled net websocket c = refl
  target_error-filled net sse c = refl
  target_error-filled net script c = refl
  target_error-filled net unknown c = refl

  numerics_error-filled :
      (k : Kind) (c : PlanInput) → numerics_error (filled_for k c) ≡ numerics_error c
  unfolding filled_for numerics_error
  numerics_error-filled http c = refl
  numerics_error-filled scenario c = refl
  numerics_error-filled grpc c = refl
  numerics_error-filled websocket c = refl
  numerics_error-filled sse c = refl
  numerics_error-filled script c = refl
  numerics_error-filled unknown c = refl

  kind_of-filled :
      (k : Kind) (c : PlanInput) → kind_of (filled_for k c).protocol ≡ kind_of c.protocol
  unfolding filled_for
  kind_of-filled http c = refl
  kind_of-filled scenario c = refl
  kind_of-filled grpc c = refl
  kind_of-filled websocket c = refl
  kind_of-filled sse c = refl
  kind_of-filled script c = refl
  kind_of-filled unknown c = refl

  abbrev pub errors_of : Net → PlanInput → Option PlanError
  errors_of net c = or_else (numerics_error c) (target_error net (kind_of c.protocol) c)

  filled : PlanInput → PlanInput
  filled c = filled_for (kind_of c.protocol) c

  errors_of-filled : (net : Net) (c : PlanInput) → errors_of net (filled c) ≡ errors_of net c
  unfolding filled
  errors_of-filled net c =
      let k = kind_of c.protocol in
      ap (λ j. or_else (numerics_error (filled_for k c)) (target_error net j (filled_for k c)))
        (kind_of-filled k c)
      ∙ ap (λ e. or_else e (target_error net k (filled_for k c))) (numerics_error-filled k c)
      ∙ ap (or_else (numerics_error c)) (target_error-filled net k c)

  filled-same : (c : PlanInput) → filled (filled c) ≡ filled c
  unfolding filled
  filled-same c =
      let k = kind_of c.protocol in
      ap (λ j. filled_for j (filled_for k c)) (kind_of-filled k c) ∙ filled_for-same k c

  plan_in : PlanInput → Validated → PlanInput
  plan_in c (valid d) = d
  plan_in c (invalid e) = c

  is_valid_in : Validated → Bool
  is_valid_in (valid d) = true
  is_valid_in (invalid e) = false

  validated-valid :
      (o : Option PlanError) (c d : PlanInput) → validated o c ≡ valid d → (o ≡ none) × (d ≡ c)
  unfolding validated plan_in is_valid_in
  validated-valid none c d e = (refl, sym (ap (plan_in c) e))
  validated-valid (some x) c d e = absurd (ground (arith, ap is_valid_in e))

  -- A plan that Validate accepts is accepted once more as it then stands, and nothing is filled in
  -- any more.
  pub validate-valid :
      (net : Net) (c d : PlanInput) → validate net c ≡ valid d → validate net d ≡ valid d
  unfolding validate filled
  validate-valid net c d e =
      let (clean, same) = validated-valid (errors_of net c) (filled c) d e in
      let again : validate net (filled c) ≡ valid (filled c) =
        ap (λ o. validated o (filled (filled c))) (errors_of-filled net c ∙ clean)
        ∙ ap valid (filled-same c) in
      subst (λ x. validate net x ≡ valid x) (sym same) again
