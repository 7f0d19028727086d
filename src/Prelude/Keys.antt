-- ===== src/Prelude/Keys.antt =====
-- Equality tests as an interface, with the instances for numbers and texts.
use Prim.Native.Nat.{ℕ}
use Prim.Native.String.{String}
use mathlib.Core.Path.{◌≡◌}
use mathlib.Core.Logic.{◌↔◌}
use mathlib.Core.Bool.{Bool, true}
use text.Mathlib.Text.{◌==◌ as str_eq}
use text.Mathlib.TextEquality.{eq_iff}
use loadify.Prelude.Tests.{eqb, eqb_iff}

pub record Comparable {ℓ} (A : Type ℓ) : Type ℓ where
  -- A test, and that it decides equality.
  pub same : (one other : A) → Bool
  pub same_iff : (one other : A) → (same one other ≡ true) ↔ (one ≡ other)

infix 50 ◌==◌
abbrev pub ◌==◌ {ℓ} : {A : Type ℓ} ⦃e : Comparable A⦄ → A → A → Bool
◌==◌ ⦃e⦄ = e.same

pub ==_iff {ℓ} : {A : Type ℓ} ⦃e : Comparable A⦄ (a b : A) → ((a == b) ≡ true) ↔ (a ≡ b)
==_iff ⦃e⦄ = e.same_iff

instance abbrev pub nat_eq : Comparable ℕ
nat_eq = record { same = eqb; same_iff = eqb_iff }

instance abbrev pub string_eq : Comparable String
string_eq = record { same = str_eq; same_iff = eq_iff }
