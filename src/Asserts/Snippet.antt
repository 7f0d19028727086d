-- ===== src/Asserts/Snippet.antt =====
-- What `truncate` keeps of a text, and an assertion that no response passes.
use loadify.Prelude.{
  ℕ, zero, suc, ◌-◌, ◌≤◌, ◌≡◌, refl, ap, sym, ◌∙◌, subst, inl, inr, ◌⊎◌, Bytes, true, string_eq,
  none, some, List, [], ◌∷◌, ◌++◌, leb, leb→le, length, length-take, take, arith, Bool-cases,
}
use loadify.Platform.{Platform}
use loadify.Utf8.{valid_string, valid_loop}
use loadify.Plan.Validation.{HttpAssert, assert_error}
use loadify.Asserts.{
  stringify, Library, refuted, back_up, truncate, ellipsis, compare, compared, eval_assert,
  eval_loop, eval_asserts,
}

take-take : (k m : ℕ) (s : Bytes) → k ≤ m → take k (take m s) ≡ take k s
take-take zero m s h = refl
take-take (suc k) zero s h = absurd (omega (arith, h))
take-take (suc k) (suc m) [] h = refl
take-take (suc k) (suc m) (c ∷ s) h = ap (λ t. c ∷ t) (take-take k m s (omega (arith, h)))

take-whole : (s : Bytes) → take (length s) s ≡ s
take-whole [] = refl
take-whole (c ∷ s) = ap (λ t. c ∷ t) (take-whole s)

module _ ⦃p : Platform⦄ where
  -- A valid front of the text.
  abbrev pub ValidFront : Bytes → Bytes → Type 0
  ValidFront s b = (k : ℕ) × (k ≤ length s) × (b ≡ take k s) × (valid_string b ≡ true)

  ValidFront-whole : (s : Bytes) → valid_string s ≡ true → ValidFront s s
  ValidFront-whole s e = (length s, omega arith, sym (take-whole s), e)

  ValidFront-shorter :
      (s b : Bytes) (m : ℕ) → m ≤ length s → ValidFront (take m s) b → ValidFront s b
  ValidFront-shorter s b m le (k, few, same, e) =
      let least : k ≤ m = omega (arith, few, length-take m s, le) in
      (k, omega (arith, least, le), same ∙ take-take k m s least, e)

  back_up-ValidFront : (fuel : ℕ) (s : Bytes) → length s ≤ fuel → ValidFront s (back_up fuel s)
  unfolding back_up valid_string valid_loop
  back_up-ValidFront zero [] h = ValidFront-whole [] refl
  back_up-ValidFront zero (c ∷ s) h = absurd (omega (arith, h))
  back_up-ValidFront (suc fuel) [] h = ValidFront-whole [] refl
  back_up-ValidFront (suc fuel) (c ∷ s) h = elim (Bool-cases (valid_string (c ∷ s))) [
    | inl e ↦ rw e (ValidFront-whole (c ∷ s) e)
    | inr e ↦
        let m = length (c ∷ s) - 1 in
        let shorter : length (take m (c ∷ s)) ≤ fuel = omega (arith, length-take m (c ∷ s), h) in
        rw e (
          ValidFront-shorter (c ∷ s) _ m (omega arith)
            (back_up-ValidFront fuel (take m (c ∷ s)) shorter))
  ]

  -- A text of at most 80 bytes is kept; of a longer one, the snippet is a front of at most 80 bytes
  -- that is valid UTF-8, with an ellipsis behind it.
  pub truncate_lem :
      (s : Bytes)
      → ((length s ≤ 80) × (truncate s ≡ s))
        ⊎ ((k : ℕ) × (k ≤ 80)
            × (truncate s ≡ take k s ++ ellipsis)
            × (valid_string (take k s) ≡ true))
  unfolding truncate
  truncate_lem s = elim (Bool-cases (leb (length s) 80)) [
    | inl e ↦ inl (leb→le (length s) 80 e, rw e refl)
    | inr e ↦
        let front = take 80 s in
        let small : length front ≤ 80 = omega (arith, length-take 80 s) in
        let (k, few, same, good) = back_up-ValidFront 80 front small in
        let least : k ≤ 80 = omega (arith, few, small) in
        let both = same ∙ take-take k 80 s least in
        inr (
          k,
          least,
          rw e (ap (λ b. b ++ ellipsis) both),
          subst (λ b. valid_string b ≡ true) both good,
        )
  ]

  -- An assertion that the body exists, which the validation of a plan accepts, fails for every
  -- response, whatever stands behind it.
  pub body_exists_fails :
      (lib : Library) (value : Bytes) (rest : List HttpAssert) (status : ℕ) (body : Bytes)
      → let a : HttpAssert = record { source = "body"; path = []; op = "exists"; value = value } in
        (assert_error a ≡ none)
        × (eval_asserts lib (a ∷ rest) status body ≡ some (refuted a (truncate body)))
  unfolding assert_error eval_asserts eval_loop eval_assert compared compare stringify
  body_exists_fails lib value rest status body = (refl, refl)
