-- ===== src/Utf8.antt =====
-- `validUTF8` of internal/worker/sampler/sampler.go, with what it uses of Go's packages
-- unicode/utf8 and strings: `utf8.ValidString` and `strings.ToValidUTF8`. A text is its bytes.
pub mod Repair
use loadify.Prelude.{
  ℕ, zero, suc, ◌-◌, Bool, true, false, not, ◌&&◌, ◌||◌, List, [], ◌∷◌, Bytes, ltb, leb, eqb,
  is_nil, if◌then◌else◌,
}

abbrev pub in_range : ℕ → ℕ → ℕ → Bool
in_range low high b = leb low b && leb b high

-- The lead and second byte of a rune of two, three and four bytes.
unfoldable pub is_two : ℕ → ℕ → Bool
is_two a b = in_range 0xc2 0xdf a && in_range 0x80 0xbf b

unfoldable pub is_three : ℕ → ℕ → ℕ → Bool
is_three a b c =
    (in_range 0xe0 0xef a
      && in_range (if eqb a 0xe0 then 0xa0 else 0x80) (if eqb a 0xed then 0x9f else 0xbf) b)
    && in_range 0x80 0xbf c

unfoldable pub is_four : ℕ → ℕ → ℕ → ℕ → Bool
is_four a b c d =
    (in_range 0xf0 0xf4 a
      && in_range (if eqb a 0xf0 then 0x90 else 0x80) (if eqb a 0xf4 then 0x8f else 0xbf) b)
    && (in_range 0x80 0xbf c && in_range 0x80 0xbf d)

unfoldable pub four_width : ℕ → ℕ → ℕ → Bytes → ℕ
four_width a b c [] = 0
four_width a b c (d ∷ s) = if is_four a b c d then 4 else 0

unfoldable pub three_width : ℕ → ℕ → Bytes → ℕ
unfolding four_width
three_width a b [] = 0
three_width a b (c ∷ s) = if is_three a b c then 3 else four_width a b c s

unfoldable pub two_width : ℕ → Bytes → ℕ
unfolding three_width
two_width a [] = 0
two_width a (b ∷ s) = if is_two a b then 2 else three_width a b s

-- The width of the rune at the front, and 0 where there is none (`utf8.RuneError` of width 1).
unfoldable pub rune_width : Bytes → ℕ
unfolding two_width
rune_width [] = 0
rune_width (a ∷ s) = if ltb a 0x80 then 1 else two_width a s

-- utf8.ValidString; the number counts the bytes left of the rune that is being passed.
unfoldable pub valid_loop : ℕ → Bytes → Bool
valid_loop k [] = eqb k 0
valid_loop (suc k) (b ∷ s) = valid_loop k s
valid_loop zero (b ∷ s) =
    let w = rune_width (b ∷ s) in let rest = valid_loop (w - 1) s in if eqb w 0 then false else rest

unfoldable pub valid_string : Bytes → Bool
unfolding valid_loop
valid_string s = valid_loop 0 s

-- strings.ToValidUTF8 with the replacement U+FFFD: a row of bad bytes becomes one replacement. The
-- flag says that the byte before was bad.
unfoldable pub repair_loop : ℕ → Bool → Bytes → Bytes
repair_loop k invalid [] = []
repair_loop (suc k) invalid (b ∷ s) = b ∷ repair_loop k invalid s
repair_loop zero invalid (b ∷ s) =
    let w = rune_width (b ∷ s) in
    let bad = repair_loop 0 true s in
    let good = b ∷ repair_loop (w - 1) false s in
    if eqb w 0 then (if invalid then bad else 0xef ∷ 0xbf ∷ 0xbd ∷ bad) else good

unfoldable pub to_valid_utf8 : Bytes → Bytes
unfolding repair_loop
to_valid_utf8 s = repair_loop 0 false s

-- validUTF8
unfoldable pub valid_utf8 : Bytes → Bytes
valid_utf8 s = if is_nil s || valid_string s then s else to_valid_utf8 s
