-- ===== src/Importer/Words.antt =====
-- A command line whose words stand in quotes is read back as these words.
use loadify.Prelude.{
  ℕ, ◌≡◌, refl, ap, sym, ◌∙◌, inl, inr, ◌⊎◌, eqb_iff, Bool, true, false, not, ◌&&◌, ◌||◌, some,
  List, [], ◌∷◌, ◌++◌, map, arith, Bytes, eqb, All, Bool-cases, if◌then◌else◌,
}
use mathlib.Core.List.{append_assoc, append-nil}
use loadify.Importer.{
  Lexer, flush, write_rune, read_rune, read_runes, tokens_of, tokenize, fold_loop, fold_lines,
}

abbrev pub is_quote : ℕ → Bool
is_quote q = eqb q 39 || eqb q 34

abbrev pub avoids : ℕ → Bytes → Bool
avoids q [] = true
avoids q (c ∷ s) = not (eqb c q) && avoids q s

-- Whether a backslash stands right before the end of a line; `held` is for the rune before.
abbrev pub breaks : Bool → Bytes → Bool
breaks held [] = false
breaks held (c ∷ s) = (held && eqb c 10) || breaks (eqb c 92) s

-- A word with the quote that stands on both sides of it.
abbrev pub Word : Type 0
Word = ℕ × Bytes

abbrev pub IsWord : Word → Type 0
IsWord (q, t) = (is_quote q ≡ true) × (avoids q t ≡ true) × (breaks false t ≡ false)

abbrev pub more : List Word → Bytes
more [] = []
more ((q, t) ∷ words) = 32 ∷ q ∷ (t ++ q ∷ more words)

-- The words in their quotes with a space between them.
abbrev pub line : List Word → Bytes
line [] = []
line ((q, t) ∷ words) = q ∷ (t ++ q ∷ more words)

abbrev pub texts : List Word → List Bytes
texts words = map (λ w. w.1) words

abbrev reading : List Bytes → Bytes → ℕ → Bool → Lexer
reading toks cur quote in_tok = record { toks = toks; cur = cur; quote = quote; in_tok = in_tok }

close_quote :
    (toks : List Bytes) (cur : Bytes) (q : ℕ)
    → is_quote q ≡ true
    → read_rune (reading toks cur q true) q ≡ reading toks cur 0 true
unfolding read_rune
close_quote toks cur q e = ground (arith, e)

inside_quote :
    (toks : List Bytes) (cur : Bytes) (q c : ℕ)
    → is_quote q ≡ true
    → eqb c q ≡ false
    → read_rune (reading toks cur q true) c ≡ reading toks (cur ++ c ∷ []) q true
unfolding read_rune write_rune
inside_quote toks cur q c e f = ground (arith, e, f)

open_quote :
    (toks : List Bytes) (cur : Bytes) (in_tok : Bool) (q : ℕ)
    → is_quote q ≡ true
    → read_rune (reading toks cur 0 in_tok) q ≡ reading toks cur q true
unfolding read_rune
open_quote toks cur in_tok q e = ground (arith, e)

-- Up to the closing quote.
read-quoted :
    (toks : List Bytes) (cur t rest : Bytes) (q : ℕ)
    → is_quote q ≡ true
    → avoids q t ≡ true
    → read_runes (reading toks cur q true) (t ++ q ∷ rest)
      ≡ read_runes (reading toks (cur ++ t) 0 true) rest
unfolding read_runes
read-quoted toks cur [] rest q e f =
    ap (λ l. read_runes l rest) (close_quote toks cur q e)
    ∙ ap (λ s. read_runes (reading toks s 0 true) rest) (sym (append-nil cur))
read-quoted toks cur (c ∷ t) rest q e f =
    ap (λ l. read_runes l (t ++ q ∷ rest)) (inside_quote toks cur q c e (ground (arith, f)))
    ∙ read-quoted toks (cur ++ c ∷ []) t rest q e (ground (arith, f))
    ∙ ap (λ s. read_runes (reading toks s 0 true) rest) (append_assoc cur (c ∷ []) t)

-- Behind a word, and from the first word on.
read-more :
    (toks : List Bytes) (cur : Bytes) (words : List Word)
    → All IsWord words
    → tokens_of (read_runes (reading toks cur 0 true) (more words))
      ≡ some (toks ++ cur ∷ texts words)
unfolding read_runes tokens_of flush
read-more toks cur [] all = refl
read-more toks cur ((q, t) ∷ words) ((e, f, b), all) =
    ap (λ l. tokens_of (read_runes l (t ++ q ∷ more words)))
      (open_quote (toks ++ cur ∷ []) [] false q e)
    ∙ ap tokens_of (read-quoted (toks ++ cur ∷ []) [] t (more words) q e f)
    ∙ read-more (toks ++ cur ∷ []) t words all
    ∙ ap some (append_assoc toks (cur ∷ []) (t ∷ texts words))

tokenize-line : (words : List Word) → All IsWord words → tokenize (line words) ≡ some (texts words)
unfolding tokenize read_runes tokens_of flush
tokenize-line [] all = refl
tokenize-line ((q, t) ∷ words) ((e, f, b), all) =
    ap (λ l. tokens_of (read_runes l (t ++ q ∷ more words))) (open_quote [] [] false q e)
    ∙ ap tokens_of (read-quoted [] [] t (more words) q e f)
    ∙ read-more [] t words all

-- The folding of lines leaves a text in which no backslash ends a line.
fold_loop_same :
    (held : Bool) (s : Bytes)
    → breaks held s ≡ false
    → fold_loop held s ≡ (if held then 92 ∷ s else s)
unfolding fold_loop
fold_loop_same true [] e = refl
fold_loop_same false [] e = refl
fold_loop_same true (c ∷ s) e = ground (arith, e, fold_loop_same (eqb c 92) s)
fold_loop_same false (c ∷ s) e = ground (arith, e, fold_loop_same (eqb c 92) s)

is_quote-cases : (q : ℕ) → is_quote q ≡ true → (q ≡ 39) ⊎ (q ≡ 34)
is_quote-cases q e = elim (Bool-cases (eqb q 39)) [
  | inl single ↦ inl ((eqb_iff q 39).0 single)
  | inr other ↦ inr ((eqb_iff q 34).0 (ap (λ b. b || eqb q 34) (sym other) ∙ e))
]

breaks-double : (held : Bool) (rest : Bytes) → breaks held (34 ∷ rest) ≡ breaks false rest
breaks-double true rest = refl
breaks-double false rest = refl

breaks-single : (held : Bool) (rest : Bytes) → breaks held (39 ∷ rest) ≡ breaks false rest
breaks-single true rest = refl
breaks-single false rest = refl

breaks_at :
    (held : Bool) (q : ℕ) (rest : Bytes)
    → is_quote q ≡ true
    → breaks held (q ∷ rest) ≡ breaks false rest
breaks_at held q rest e = elim (is_quote-cases q e) [
  | inl single ↦ ap (λ c. breaks held (c ∷ rest)) single ∙ breaks-single held rest
  | inr double ↦ ap (λ c. breaks held (c ∷ rest)) double ∙ breaks-double held rest
]

breaks-quote :
    (held : Bool) (t rest : Bytes) (q : ℕ)
    → is_quote q ≡ true
    → breaks held t ≡ false
    → breaks false rest ≡ false
    → breaks held (t ++ q ∷ rest) ≡ false
breaks-quote held [] rest q e f g = breaks_at held q rest e ∙ g
breaks-quote held (c ∷ t) rest q e f g = ground (arith, f, breaks-quote (eqb c 92) t rest q e)

breaks-more : (words : List Word) → All IsWord words → breaks false (more words) ≡ false
breaks-more [] all = refl
breaks-more ((q, t) ∷ words) ((e, f, b), all) =
    breaks_at false q (t ++ q ∷ more words) e
    ∙ breaks-quote false t (more words) q e b (breaks-more words all)

fold_lines-line : (words : List Word) → All IsWord words → fold_lines (line words) ≡ line words
unfolding fold_lines
fold_lines-line [] all = fold_loop_same false [] refl
fold_lines-line ((q, t) ∷ words) ((e, f, b), all) = fold_loop_same false (line ((q, t) ∷ words)) (
    breaks_at false q (t ++ q ∷ more words) e
    ∙ breaks-quote false t (more words) q e b (breaks-more words all))

-- Words in single or double quotes, each without its quote and without a backslash at the end of a
-- line, are read back from the line that they make, whatever else they hold.
pub tokenize-fold_lines-line :
    (words : List Word) → All IsWord words → tokenize (fold_lines (line words)) ≡ some (texts words)
tokenize-fold_lines-line words all =
    ap tokenize (fold_lines-line words all) ∙ tokenize-line words all
