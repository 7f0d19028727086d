-- ===== src/Utf8/Repair.antt =====
-- What the guard makes of a text.
use loadify.Prelude.{
  ℕ, zero, suc, ◌-◌, ◌≤◌, ◌≡◌, ◌≢◌, ◌⊎◌, ap, refl, ◌∙◌, Bool, true, false, [], ◌∷◌, Bytes, arith,
  length, inl, inr,
}
use loadify.Utf8.{
  is_two, is_three, two_width, three_width, four_width, rune_width, valid_loop, valid_string,
  repair_loop, to_valid_utf8, valid_utf8,
}

three_width-ne : (a b : ℕ) (s : Bytes) → (three_width a b s ≢ 2) × (three_width a b s ≢ 1)
unfolding three_width four_width
three_width-ne a b [] = ground arith
three_width-ne a b (c ∷ []) = ground arith
three_width-ne a b (c ∷ d ∷ s) = ground arith

four_width-ne : (a b c : ℕ) (s : Bytes) → four_width a b c s ≢ 3
unfolding four_width
four_width-ne a b c [] = ground arith
four_width-ne a b c (d ∷ s) = ground arith

-- The rune that the repair copies stands at the front of its result, whole.
rune_width-copy :
    (k : ℕ) (b : ℕ) (s : Bytes)
    → rune_width (b ∷ s) ≡ suc k
    → (rune_width (b ∷ repair_loop k false s) ≡ suc k) × (k ≤ length s)
unfolding rune_width two_width repair_loop
rune_width-copy zero b [] h = ground arith
rune_width-copy zero b (c ∷ s) h = ground (arith, three_width-ne b c s)
rune_width-copy (suc zero) b [] h = absurd (ground arith)
rune_width-copy (suc zero) b (c ∷ s) h = ground (arith, three_width-ne b c s)
rune_width-copy (suc (suc zero)) b [] h = absurd (ground arith)
rune_width-copy (suc (suc zero)) b (c ∷ []) h = absurd (unfold three_width in ground arith)
rune_width-copy (suc (suc zero)) b (c ∷ d ∷ s) h =
    unfold three_width in ground (arith, four_width-ne b c d s)
rune_width-copy (suc (suc (suc k))) b [] h = absurd (ground arith)
rune_width-copy (suc (suc (suc k))) b (c ∷ []) h = absurd (unfold three_width in ground arith)
rune_width-copy (suc (suc (suc k))) b (c ∷ d ∷ []) h =
    absurd (unfold three_width four_width in ground arith)
rune_width-copy (suc (suc (suc k))) b (c ∷ d ∷ e ∷ s) h =
    unfold three_width four_width in ground arith

ℕ-cases : (n : ℕ) → (n ≡ 0) ⊎ ((k : ℕ) × (n ≡ suc k))
ℕ-cases zero = inl refl
ℕ-cases (suc k) = inr (k, refl)

repair_good :
    (invalid : Bool) (k b : ℕ) (s : Bytes)
    → rune_width (b ∷ s) ≡ suc k
    → repair_loop zero invalid (b ∷ s) ≡ b ∷ repair_loop k false s
unfolding repair_loop
repair_good invalid k b s e = ground (arith, e)

valid_good :
    (k b : ℕ) (s : Bytes) → rune_width (b ∷ s) ≡ suc k → valid_loop zero (b ∷ s) ≡ valid_loop k s
unfolding valid_loop
valid_good k b s e = ground (arith, e)

repair_bad :
    (invalid : Bool) (b : ℕ) (s : Bytes)
    → rune_width (b ∷ s) ≡ 0
    → valid_loop zero (repair_loop zero true s) ≡ true
    → valid_loop zero (repair_loop zero invalid (b ∷ s)) ≡ true
unfolding repair_loop
repair_bad true b s e h = rw e h
repair_bad false b s e h =
    rw e (unfold valid_loop rune_width two_width three_width is_two is_three in h)

valid_copy :
    (k : ℕ) (invalid : Bool) (b : ℕ) (s : Bytes)
    → valid_loop (suc k) (repair_loop (suc k) invalid (b ∷ s))
      ≡ valid_loop k (repair_loop k invalid s)
unfolding repair_loop valid_loop
valid_copy k invalid b s = refl

repair_loop-valid :
    (k : ℕ) (invalid : Bool) (s : Bytes)
    → k ≤ length s
    → valid_loop k (repair_loop k invalid s) ≡ true
repair_loop-valid zero invalid [] h = unfold repair_loop valid_loop in refl
repair_loop-valid (suc k) invalid [] h = absurd (omega arith)
repair_loop-valid (suc k) invalid (b ∷ s) h =
    valid_copy k invalid b s ∙ repair_loop-valid k invalid s (omega arith)
repair_loop-valid zero invalid (b ∷ s) h = elim (ℕ-cases (rune_width (b ∷ s))) [
  | inl bad ↦ repair_bad invalid b s bad (repair_loop-valid zero true s (omega arith))
  | inr (k, e) ↦
      let (width, enough) = rune_width-copy k b s e in
      rw (repair_good invalid k b s e)
        (valid_good k b (repair_loop k false s) width ∙ repair_loop-valid k false s enough)
]

-- A valid text is not changed by the repair.
repair_loop-same :
    (k : ℕ) (invalid : Bool) (s : Bytes) → valid_loop k s ≡ true → repair_loop k invalid s ≡ s
unfolding repair_loop valid_loop
repair_loop-same k invalid [] h = refl
repair_loop-same (suc k) invalid (b ∷ s) h = ap (λ t. b ∷ t) (repair_loop-same k invalid s h)
repair_loop-same zero invalid (b ∷ s) h =
    ground (arith, h, repair_loop-same (rune_width (b ∷ s) - 1) false s)

-- The guard's result is always valid UTF-8; it is what the repair gives on every text, so the test
-- before it only saves work; and to guard twice is to guard once.
pub valid_utf8_lem :
    (s : Bytes)
    → (valid_string (valid_utf8 s) ≡ true)
      × (valid_utf8 s ≡ to_valid_utf8 s)
      × (valid_utf8 (valid_utf8 s) ≡ valid_utf8 s)
unfolding valid_utf8 valid_string to_valid_utf8
valid_utf8_lem s =
    ground (arith, repair_loop-valid zero false s (omega arith), repair_loop-same zero false s)
