-- ===== src/Asserts.antt =====
-- internal/worker/protocols/httpd/assert.go: the checks of a response. Texts are bytes. What the
-- code takes from strconv and encoding/json, and TrimSpace, is the record Library; a decoded JSON
-- value is a tree.
pub mod Snippet
use Prim.Native.String.{String}
use loadify.Prelude.{
  ℕ, zero, suc, ◌-◌, Bytes, Bool, true, false, not, ◌&&◌, ◌||◌, string_eq, ◌==◌, Option, none, some,
  List, [], ◌∷◌, ◌++◌, ltb, leb, is_nil, length, take, if◌then◌else◌, ℤ, pos, negsuc,
}
use loadify.Platform.{Platform, Float, float}
use loadify.Utf8.{valid_string}
use loadify.Auth.Tokens.{split}
use loadify.Importer.{runes_eq, has_prefix}
use loadify.Plan.Validation.{HttpAssert}

module _ ⦃p : Platform⦄ where
  mutual
    pub data Json : Type 0 where
      null : Json
      boolean : Bool → Json
      number : Float → Json
      text : Bytes → Json
      array : Elements → Json
      object : Members → Json

    pub data Elements : Type 0 where
      no_elements : Elements
      element : Json → Elements → Elements

    pub data Members : Type 0 where
      no_members : Members
      member : (key : Bytes) (value : Json) → Members → Members

  -- ParseFloat, ParseBool and Atoi with `none` for an error, FormatFloat, and the JSON of a value.
  pub record Library : Type 0 where
    pub trim_space : Bytes → Bytes
    pub parse_float : Bytes → Option Float
    pub parse_bool : Bytes → Option Bool
    pub atoi : Bytes → Option ℤ
    pub format_float : Float → Bytes
    pub marshal : Json → Bytes
    pub unmarshal : Bytes → Option Json

  unfoldable pub find_member : Bytes → Members → Option Json
  find_member seg no_members = none
  find_member seg (member key v rest) =
      let deeper = find_member seg rest in if key == seg then some v else deeper

  unfoldable pub nth_element : Elements → ℕ → Option Json
  nth_element no_elements i = none
  nth_element (element v rest) zero = some v
  nth_element (element v rest) (suc i) = nth_element rest i

  unfoldable pub at_index : Elements → Option ℤ → Option Json
  unfolding nth_element
  at_index es (some (pos i)) = nth_element es i
  at_index es (some (negsuc i)) = none
  at_index es none = none

  -- The body of lookupPath's loop behind the test of the segment, and the loop.
  unfoldable pub step_into : Library → Json → Bytes → Option Json
  unfolding find_member at_index
  step_into lib (object members) seg = find_member seg members
  step_into lib (array es) seg = at_index es (lib.atoi seg)
  step_into lib _ seg = none

  unfoldable pub walk : Library → Json → List Bytes → Option Json
  unfolding step_into
  walk lib cur [] = some cur
  walk lib cur (seg ∷ segs) =
      if is_nil seg
      then none
      else elim (step_into lib cur seg) [ none ↦ none | some next ↦ walk lib next segs ]

  unfoldable pub lookup_path : Library → Json → Bytes → Option Json
  unfolding walk
  lookup_path lib v path = walk lib v (split path)

  abbrev true_text : Bytes
  true_text = 116 ∷ 114 ∷ 117 ∷ 101 ∷ []

  abbrev false_text : Bytes
  false_text = 102 ∷ 97 ∷ 108 ∷ 115 ∷ 101 ∷ []

  abbrev null_text : Bytes
  null_text = 110 ∷ 117 ∷ 108 ∷ 108 ∷ []

  unfoldable pub stringify : Library → Json → Bytes
  stringify lib (text s) = s
  stringify lib (number n) = lib.format_float n
  stringify lib (boolean b) = if b then true_text else false_text
  stringify lib null = null_text
  stringify lib v = lib.marshal v

  unfoldable pub to_float : Library → Json → Option Float
  to_float lib (number n) = some n
  to_float lib (text s) = lib.parse_float (lib.trim_space s)
  to_float lib (boolean b) = some (if b then float 1 else float 0)
  to_float lib _ = none

  abbrev same_bool : Bool → Bool → Bool
  same_bool true b = b
  same_bool false b = not b

  unfoldable pub loose_equal : Library → Json → Bytes → Bool
  unfolding stringify
  loose_equal lib (number v) want = elim (lib.parse_float (lib.trim_space want)) [
    | none ↦ false
    | some w ↦ p.eq_float v w
  ]
  loose_equal lib (boolean v) want = elim (lib.parse_bool (lib.trim_space want)) [
    | none ↦ false
    | some w ↦ same_bool v w
  ]
  loose_equal lib null want = lib.trim_space want == null_text
  loose_equal lib (text s) want = s == want
  loose_equal lib v want = lib.marshal v == want

  -- The loop of truncate, which drops a byte until the text is valid, with the text's length as
  -- fuel; and truncate, whose constant `cap` is 80.
  unfoldable pub back_up : ℕ → Bytes → Bytes
  back_up zero b = b
  back_up (suc fuel) b =
      let shorter = back_up fuel (take (length b - 1) b) in
      if not (is_nil b) && not (valid_string b) then shorter else b

  abbrev pub snippet_cap : ℕ
  snippet_cap = 80

  abbrev pub ellipsis : Bytes
  ellipsis = 226 ∷ 128 ∷ 166 ∷ []

  unfoldable pub truncate : Bytes → Bytes
  unfolding back_up
  truncate s =
      if leb (length s) snippet_cap then s else back_up snippet_cap (take snippet_cap s) ++ ellipsis

  -- strings.Contains
  unfoldable pub contains : Bytes → Bytes → Bool
  unfolding has_prefix
  contains [] want = is_nil want
  contains (c ∷ s) want = has_prefix (c ∷ s) want || contains s want

  -- compare for the orders, by the name of the operation.
  unfoldable pub ordered : String → Float → Float → Bool
  ordered op a w =
      if op == "gt"
      then p.lt_float w a
      else if op == "lt"
      then p.lt_float a w
      else if op == "gte"
      then p.le_float w a
      else p.le_float a w

  unfoldable pub compare_numbers : String → Option Float → Option Float → Bool
  unfolding ordered
  compare_numbers op (some a) (some w) = ordered op a w
  compare_numbers op _ _ = false

  -- compare; the note " (not a number)" is left out of the printed form.
  unfoldable pub compare : Library → Json → String → Bytes → Bool × Bytes
  unfolding contains loose_equal compare_numbers to_float truncate stringify
  compare lib actual op want =
      let got = stringify lib actual in
      if op == "contains"
      then (contains got want, truncate got)
      else if op == "eq"
      then (loose_equal lib actual want, truncate got)
      else if op == "ne"
      then (not (loose_equal lib actual want), truncate got)
      else if (op == "gt") || (op == "lt") || (op == "gte") || (op == "lte")
      then (
        compare_numbers op (to_float lib actual) (lib.parse_float (lib.trim_space want)),
        truncate got,
      )
      else (false, truncate got)

  -- The reasons that evalAsserts prints.
  pub data Failure : Type 0 where
    not_json : (path : Bytes) → Failure
    missing : HttpAssert → Failure
    refuted : HttpAssert → (got : Bytes) → Failure

  unfoldable pub compared : HttpAssert → Bool × Bytes → Option Failure
  compared a (true, got) = none
  compared a (false, got) = some (refuted a got)

  unfoldable pub check_found : Library → HttpAssert → Option Json → Option Failure
  unfolding compared compare
  check_found lib a none = some (missing a)
  check_found lib a (some v) =
      if a.op == "exists" then none else compared a (compare lib v a.op a.value)

  unfoldable pub check_json : Library → HttpAssert → Option Json → Option Failure
  unfolding check_found lookup_path
  check_json lib a none = some (not_json a.path)
  check_json lib a (some parsed) = check_found lib a (lookup_path lib parsed a.path)

  -- The body of evalAsserts's loop; `parsed` is what the body decodes to.
  unfoldable pub eval_assert : Library → ℕ → Bytes → Option Json → HttpAssert → Option Failure
  unfolding check_json compared compare
  eval_assert lib status body parsed a =
      if a.source == "json"
      then check_json lib a parsed
      else (let actual : Json =
            if a.source == "status"
            then number (float status)
            else if a.source == "body"
            then text body
            else null in
          compared a (compare lib actual a.op a.value))

  unfoldable pub eval_loop : Library → ℕ → Bytes → Option Json → List HttpAssert → Option Failure
  unfolding eval_assert
  eval_loop lib status body parsed [] = none
  eval_loop lib status body parsed (a ∷ asserts) =
      let rest = eval_loop lib status body parsed asserts in
      elim (eval_assert lib status body parsed a) [ some f ↦ some f | none ↦ rest ]

  -- evalAsserts: `none` where every assertion holds.
  unfoldable pub eval_asserts : Library → List HttpAssert → ℕ → Bytes → Option Failure
  unfolding eval_loop
  eval_asserts lib asserts status body = eval_loop lib status body (lib.unmarshal body) asserts
