-- ===== src/Dict.antt =====
-- Go's maps: an association list in the order in which the program ranges over it. Missing keys
-- give `none`; a write to a present key replaces its value.
use loadify.Prelude.{
  ℕ, ◌+◌, ◌≡◌, refl, Option, none, some, List, [], ◌∷◌, arith, Comparable, ◌==◌, ==_iff,
  if◌then◌else◌, sum_of, map,
}

-- The measure of what a lookup found.
abbrev pub measure {κ} : {V : Type κ} → (V → ℕ) → Option V → ℕ
measure f none = 0
measure f (some v) = f v

-- The sum of a measure over the values.
abbrev pub total {ℓ κ} : {K : Type ℓ} {V : Type κ} → (V → ℕ) → List (K × V) → ℕ
total f = sum_of (λ p. f p.1)

module _ {ℓ κ} {K : Type ℓ} {V : Type κ} where
  unfoldable pub update : (V → V) → List (K × V) → List (K × V)
  update f [] = []
  update f ((k, v) ∷ m) = (k, f v) ∷ update f m

  abbrev pub keys : List (K × V) → List K
  keys m = map (λ p. p.0) m

  abbrev pub values : List (K × V) → List V
  values m = map (λ p. p.1) m

module _ {ℓ κ} {K : Type ℓ} {V : Type κ} ⦃e : Comparable K⦄ where
  unfoldable pub lookup : K → List (K × V) → Option V
  lookup key [] = none
  lookup key ((other, v) ∷ dict) = if other == key then some v else lookup key dict

  unfoldable pub insert : K → V → List (K × V) → List (K × V)
  insert key v [] = (key, v) ∷ []
  insert key v ((other, found) ∷ dict) =
      if other == key then (key, v) ∷ dict else (other, found) ∷ insert key v dict

  unfoldable pub delete : K → List (K × V) → List (K × V)
  delete key [] = []
  delete key ((other, found) ∷ dict) =
      if other == key then delete key dict else (other, found) ∷ delete key dict

  pub lookup-insert :
      (key other : K) (v : V) (dict : List (K × V))
      → lookup other (insert key v dict) ≡ (if key == other then some v else lookup other dict)
  unfolding lookup insert
  lookup-insert key other v [] = refl
  lookup-insert key other v ((first, found) ∷ dict) = ground (
    arith,
    ==_iff key other,
    ==_iff first key,
    ==_iff first other,
    lookup-insert key other v dict,
  )

  pub lookup-delete :
      (key other : K) (dict : List (K × V))
      → lookup other (delete key dict) ≡ (if key == other then none else lookup other dict)
  unfolding lookup delete
  lookup-delete key other [] = ground arith
  lookup-delete key other ((first, found) ∷ dict) =
      ground (
        arith,
        ==_iff key other,
        ==_iff first key,
        ==_iff first other,
        lookup-delete key other dict,
      )

  pub total-insert :
      (f : V → ℕ) (k : K) (v : V) (m : List (K × V))
      → total f (insert k v m) + measure f (lookup k m) ≡ total f m + f v
  unfolding lookup insert
  total-insert f k v [] = omega arith
  total-insert f k v ((i, w) ∷ m) = ground (arith, total-insert f k v m)

  -- A write whose value is `d` more than what stood there.
  pub total-insert_more :
      (f : V → ℕ) (k : K) (v : V) (d : ℕ) (m : List (K × V))
      → f v ≡ measure f (lookup k m) + d
      → total f (insert k v m) ≡ total f m + d
  total-insert_more f k v d m h = omega (arith, total-insert f k v m)

  -- Every key stands once.
  abbrev pub Distinct : List (K × V) → Type κ
  Distinct [] = Unit
  Distinct ((k, v) ∷ m) = (lookup k m ≡ none) × Distinct m

  delete_absent : (k : K) (m : List (K × V)) → lookup k m ≡ none → delete k m ≡ m
  unfolding lookup delete
  delete_absent k [] h = refl
  delete_absent k ((i, w) ∷ m) h = ground (arith, delete_absent k m)

  pub total-delete :
      (f : V → ℕ) (k : K) (m : List (K × V))
      → Distinct m
      → total f (delete k m) + measure f (lookup k m) ≡ total f m
  unfolding lookup delete
  total-delete f k [] d = omega arith
  total-delete f k ((i, w) ∷ m) d =
      ground (arith, total-delete f k m, delete_absent k m, ==_iff i k)

  pub insert-Distinct : (k : K) (v : V) (m : List (K × V)) → Distinct m → Distinct (insert k v m)
  unfolding lookup insert
  insert-Distinct k v [] d = (refl, tt)
  insert-Distinct k v ((i, w) ∷ m) d =
      ground (arith, insert-Distinct k v m, lookup-insert k i v m, ==_iff i k, ==_iff k i)

  pub delete-Distinct : (k : K) (m : List (K × V)) → Distinct m → Distinct (delete k m)
  unfolding delete
  delete-Distinct k [] d = tt
  delete-Distinct k ((i, w) ∷ m) d = ground (arith, delete-Distinct k m, lookup-delete k i m)
