-- ===== src/Tests/Owners.antt =====
-- Who changes a test definition.
use loadify.Prelude.{
  ℕ, ◌≡◌, refl, inl, inr, ◌⊎◌, true, false, String, string_eq, ◌==◌, ==_iff, Option, none, some,
  Bool-cases, arith,
}
use loadify.Platform.{Platform}
use loadify.Dict.{lookup, lookup-insert}
use loadify.Auth.Tokens.{Claims}
use loadify.Runs.Requests.{can_mutate}
use loadify.Auth.Access.{Middleware, Request, served, require}
use loadify.Tests.{
  is_known, Definition, Tests, CreateTestReq, Decoder, parses, validate_dataset, get_definition,
  update_test_definition, archive_test_definition, owned, handle_delete_test, handle_update_test,
  post_baseline, guarded, no_content, forbidden, handle_set_baseline, set_baseline, baseline_found,
  stored,
}

abbrev pub Unowned : Tests → Option Claims → Tests → Option Definition → Type 0
Unowned s caller t none = t ≡ s
Unowned s caller t (some d) = (t ≡ s) ⊎ (can_mutate caller d.created_by ≡ true)

owned-Unowned :
    (s : Tests) (caller : Option Claims) (found : Option Definition) (written : Option Tests)
    → Unowned s caller (owned s caller found written).0 found
unfolding owned
owned-Unowned s caller none written = refl
owned-Unowned s caller (some d) written = elim (Bool-cases (can_mutate caller d.created_by)) [
  | inl may ↦ inr may
  | inr not_his ↦ inl (rw not_his refl)
]

Unowned-same :
    (s : Tests) (caller : Option Claims) (found : Option Definition) → Unowned s caller s found
Unowned-same s caller none = refl
Unowned-same s caller (some d) = inl refl

module _ ⦃p : Platform⦄ where
  update-Unowned :
      (k : Decoder) (s : Tests) (caller : Option Claims) (id : String) (q : Option CreateTestReq)
      → Unowned s caller (handle_update_test k s caller id q).0 (get_definition s id)
  unfolding handle_update_test
  update-Unowned k s caller id none = Unowned-same s caller (get_definition s id)
  update-Unowned k s caller id (some q) = elim (Bool-cases (parses k q.plan)) [
    | inr e ↦ rw e (Unowned-same s caller (get_definition s id))
    | inl e ↦ elim (Bool-cases (validate_dataset k q.dataset)) [
      | inr f ↦ rw (e, f) (Unowned-same s caller (get_definition s id))
      | inl f ↦
          rw (e, f) (owned-Unowned s caller (get_definition s id) (update_test_definition s id q))
    ]
  ]

  -- Requests to update and to delete a test change nothing where it is not found, and otherwise
  -- nothing unless the caller is an administrator or the test's creator.
  pub tests_owned :
      (k : Decoder) (s : Tests) (caller : Option Claims) (id : String) (q : Option CreateTestReq)
      → Unowned s caller (handle_update_test k s caller id q).0 (get_definition s id)
        × Unowned s caller (handle_delete_test s caller id).0 (get_definition s id)
  unfolding handle_delete_test
  tests_owned k s caller id q = (
    update-Unowned k s caller id q,
    owned-Unowned s caller (get_definition s id) (archive_test_definition s id),
  )

-- While the database answers, a request to set a known run as the baseline of a known test that the
-- guard of the route, for operators, lets through sets it and is answered as done, also where the
-- caller may not modify the test; the same caller's request to delete this test is forbidden and
-- changes nothing.
pub baseline_unguarded :
    (m : Middleware) (s : Tests) (r : Request) (now : ℕ) (c : Claims) (id run_id : String)
    (d : Definition)
    → s.up ≡ true
    → lookup id s.rows ≡ some d
    → (run_id == "") ≡ false
    → is_known run_id s.run_ids ≡ true
    → require m "operator" r now ≡ served c
    → can_mutate (some c) d.created_by ≡ false
    → let t = post_baseline m s r now id (some run_id) in
      (lookup id t.0.rows ≡ some (record d { baseline_run_id = some run_id }))
      × (t.1 ≡ some no_content)
      × (handle_delete_test s (some c) id ≡ (s, forbidden))
unfolding post_baseline guarded handle_set_baseline set_baseline baseline_found get_definition
    stored handle_delete_test owned
baseline_unguarded m s r now c id run_id d up found e known passed other =
    rw (passed, post_baseline)
      (
        ground (
          arith,
          up,
          found,
          e,
          lookup-insert id id (record d { baseline_run_id = some run_id }) s.rows,
          ==_iff id id,
        ),
        ground (arith, up, found, e),
        ground (arith, up, found, other),
      )
