-- ===== src/Breaker/Window.antt =====
-- The trailing window of the error-rate breaker.
use loadify.Prelude.{
  ℕ, zero, suc, ◌+◌, ◌-◌, min, ◌≤◌, ◌≡◌, refl, sym, ap, ◌∙◌, List, [], ◌∷◌, ◌++◌, map, arith, ltb,
  leb, if◌then◌else◌, length, length-append, length-drop, drop, take, subst, Bool-cases, inl, inr,
}
use native.Mathlib.Nat.{zero-add}
use loadify.Platform.{Platform}
use loadify.Rollups.{LiveTick}
use loadify.Breaker.{SecStat, Breaker, sec_stat, trim, eval_window}

drop-nil {ℓ} : {A : Type ℓ} (n : ℕ) → drop {A = A} n [] ≡ []
drop-nil zero = refl
drop-nil (suc n) = refl

take_append_drop {ℓ} : {A : Type ℓ} (n : ℕ) (xs : List A) → take n xs ++ drop n xs ≡ xs
take_append_drop zero xs = refl
take_append_drop (suc n) [] = refl
take_append_drop (suc n) (x ∷ xs) = ap (◌∷◌ x) (take_append_drop n xs)

drop-drop {ℓ} : {A : Type ℓ} (m n : ℕ) (xs : List A) → drop m (drop n xs) ≡ drop (n + m) xs
drop-drop m zero xs = rw zero-add
drop-drop m (suc n) [] = drop-nil m ∙ sym (drop-nil (suc n + m))
drop-drop m (suc n) (x ∷ xs) =
    let e : suc n + m ≡ suc (n + m) = omega arith in rw e (drop-drop m n xs)

drop-append {ℓ} :
    {A : Type ℓ} (n : ℕ) (xs ys : List A) → n ≤ length xs → drop n xs ++ ys ≡ drop n (xs ++ ys)
drop-append zero xs ys h = refl
drop-append (suc n) [] ys h = absurd (omega arith)
drop-append (suc n) (x ∷ xs) ys h = drop-append n xs ys (omega arith)

trim-drop : (win : ℕ) (h : List SecStat) → trim win h ≡ drop (length h - win) h
unfolding trim
trim-drop win h = elim (Bool-cases (ltb win (length h))) [
  | inl long ↦ rw long
  | inr short ↦ let e : length h - win ≡ 0 = ground arith in rw (short, e)
]

length-trim : (win : ℕ) (h : List SecStat) → length (trim win h) ≡ min win (length h)
length-trim win h = rw (trim-drop win h, length-drop (length h - win) h) (omega arith)

-- What was forgotten before does not matter: the window of a window and new entries is the window
-- of the whole history.
trim_history : (win : ℕ) (h new : List SecStat) → trim win (trim win h ++ new) ≡ trim win (h ++ new)
trim_history win h new =
    let d = length h - win in
    let kept = length (trim win h ++ new) - win in
    let e : d + kept ≡ length (h ++ new) - win =
      omega (arith, length-append (trim win h) new, length-append h new, length-trim win h) in
    trim-drop win (trim win h ++ new)
    ∙ ap (λ l. drop kept (l ++ new)) (trim-drop win h)
    ∙ ap (drop kept) (drop-append d h new (omega arith))
    ∙ drop-drop kept d (h ++ new)
    ∙ ap (λ k. drop k (h ++ new)) e
    ∙ sym (trim-drop win (h ++ new))

module _ ⦃p : Platform⦄ where
  -- The number of seconds that the window holds: the configured one, and 10 where it is 0.
  abbrev pub window : Breaker → ℕ
  window b = if leb b.auto_stop.window_sec 0 then 10 else b.auto_stop.window_sec

  eval_window-auto_win :
      (b : Breaker) (ticks : List LiveTick)
      → (eval_window b ticks).0.auto_win ≡ trim (window b) (b.auto_win ++ map sec_stat ticks)
  unfolding eval_window
  eval_window-auto_win b ticks = ground arith

  -- What the window is to hold of a history: its last seconds, as many as configured, or all of them
  -- where they are fewer.
  pub record IsTail (win : ℕ) (history tail : List SecStat) : Type 0 where
    pub forgotten : List SecStat
    pub split : history ≡ forgotten ++ tail
    pub counted : length tail ≡ min win (length history)

  IsTail-drop : (win : ℕ) (h : List SecStat) → IsTail win h (drop (length h - win) h)
  IsTail-drop win h = record {
    forgotten = take (length h - win) h;
    split = sym (take_append_drop (length h - win) h);
    counted = omega (arith, length-drop (length h - win) h);
  }

  drop_append_length : (xs ys : List SecStat) → drop (length xs) (xs ++ ys) ≡ ys
  drop_append_length [] ys = refl
  drop_append_length (x ∷ xs) ys = drop_append_length xs ys

  -- There is one such tail.
  drop-IsTail :
      (win : ℕ) (h tail : List SecStat) → IsTail win h tail → tail ≡ drop (length h - win) h
  drop-IsTail win h tail t =
      let n : length t.forgotten ≡ length h - win =
        omega (arith, ap length t.split, length-append t.forgotten tail, t.counted) in
      sym (drop_append_length t.forgotten tail)
      ∙ ap (λ l. drop (length t.forgotten) l) (sym t.split)
      ∙ ap (λ k. drop k h) n

  -- If the window holds the last seconds of the history `h`, as many as configured or all where they
  -- are fewer, then after an evaluation it holds in the same sense the last ones of the history with
  -- the new ticks behind it.
  pub eval_window_history :
      (b : Breaker) (h : List SecStat) (ticks : List LiveTick)
      → IsTail (window b) h b.auto_win
      → IsTail (window b) (h ++ map sec_stat ticks) (eval_window b ticks).0.auto_win
  eval_window_history b h ticks t =
      let w = window b in
      let new : List SecStat = map sec_stat ticks in
      let before : b.auto_win ≡ trim w h = drop-IsTail w h b.auto_win t ∙ sym (trim-drop w h) in
      let after : (eval_window b ticks).0.auto_win ≡ drop (length (h ++ new) - w) (h ++ new) =
        eval_window-auto_win b ticks
        ∙ ap (λ l. trim w (l ++ new)) before
        ∙ trim_history w h new
        ∙ trim-drop w (h ++ new) in
      subst (IsTail w (h ++ new)) (sym after) (IsTail-drop w (h ++ new))
