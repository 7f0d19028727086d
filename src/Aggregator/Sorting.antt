-- ===== src/Aggregator/Sorting.antt =====
-- The ready seconds are the due ones, each once, in ascending order.
use loadify.Prelude.{
  ℕ, ◌≤◌, ◌<◌, ◌≡◌, refl, ◌∙◌, ◌⊎◌, inl, Bool, true, false, ◌&&◌, ◌||◌, List, [], ◌∷◌, none, arith,
  leb, eqb, filter, All, nat_eq, if◌then◌else◌,
}
use loadify.Dict.{lookup, keys, Distinct}
use loadify.Aggregator.{insert_sorted, sort}

abbrev pub contains : List ℕ → ℕ → Bool
contains [] k = false
contains (x ∷ xs) k = eqb x k || contains xs k

-- Strictly ascending.
abbrev pub Ascending : List ℕ → Type 0
Ascending [] = Unit
Ascending (x ∷ xs) = All (λ y. x < y) xs × Ascending xs

abbrev Unique : List ℕ → Type 0
Unique [] = Unit
Unique (x ∷ xs) = (contains xs x ≡ false) × Unique xs

pub contains-insert_sorted :
    (x k : ℕ) (ys : List ℕ) → contains (insert_sorted x ys) k ≡ (eqb x k || contains ys k)
unfolding insert_sorted
contains-insert_sorted x k [] = refl
contains-insert_sorted x k (y ∷ ys) = ground (arith, contains-insert_sorted x k ys)

pub contains-sort : (k : ℕ) (xs : List ℕ) → contains (sort xs) k ≡ contains xs k
unfolding sort
contains-sort k [] = refl
contains-sort k (x ∷ xs) = ground (arith, contains-insert_sorted x k (sort xs), contains-sort k xs)

pub All-insert_sorted {κ} :
    (P : ℕ → Type κ) (x : ℕ) (ys : List ℕ) → P x → All P ys → All P (insert_sorted x ys)
unfolding insert_sorted
All-insert_sorted P x [] h a = (h, tt)
All-insert_sorted P x (y ∷ ys) h a =
    elim (leb x y) as (λ b. All P (if b then x ∷ y ∷ ys else y ∷ insert_sorted x ys)) [
      | true ↦ (h, a)
      | false ↦ (a.0, All-insert_sorted P x ys h a.1)
    ]

pub All-sort {κ} : (P : ℕ → Type κ) (xs : List ℕ) → All P xs → All P (sort xs)
unfolding sort
All-sort P [] a = tt
All-sort P (x ∷ xs) a = All-insert_sorted P x (sort xs) a.0 (All-sort P xs a.1)

All-weaken : (m n : ℕ) (xs : List ℕ) → m < n → All (λ y. n < y) xs → All (λ y. m < y) xs
All-weaken m n [] h a = tt
All-weaken m n (x ∷ xs) h a = (omega arith, All-weaken m n xs h a.1)

insert_sorted-Ascending :
    (x : ℕ) (ys : List ℕ) → contains ys x ≡ false → Ascending ys → Ascending (insert_sorted x ys)
unfolding insert_sorted
insert_sorted-Ascending x [] c a = (tt, tt)
insert_sorted-Ascending x (y ∷ ys) c a =
    ground
      (arith, insert_sorted-Ascending x ys, All-weaken x y ys, All-insert_sorted (λ z. y < z) x ys)

sort-Ascending : (xs : List ℕ) → Unique xs → Ascending (sort xs)
unfolding sort
sort-Ascending [] u = tt
sort-Ascending (x ∷ xs) u =
    insert_sorted-Ascending x (sort xs) (contains-sort x xs ∙ u.0) (sort-Ascending xs u.1)

pub contains-filter :
    (p : ℕ → Bool) (k : ℕ) (xs : List ℕ) → contains (filter p xs) k ≡ (p k && contains xs k)
contains-filter p k [] = ground arith
contains-filter p k (x ∷ xs) = ground (arith, contains-filter p k xs)

filter-Unique : (p : ℕ → Bool) (xs : List ℕ) → Unique xs → Unique (filter p xs)
filter-Unique p [] u = tt
filter-Unique p (x ∷ xs) u = ground (arith, filter-Unique p xs, contains-filter p x xs)

All-filter : (p : ℕ → Bool) (xs : List ℕ) → All (λ x. p x ≡ true) (filter p xs)
All-filter p [] = tt
All-filter p (x ∷ xs) = ground (arith, All-filter p xs)

module _ {V : Type 0} where
  pub contains-keys :
      (k : ℕ) (m : List (ℕ × V)) → (lookup k m ≡ none) ⊎ (contains (keys m) k ≡ true)
  unfolding lookup
  contains-keys k [] = inl refl
  contains-keys k ((j, v) ∷ m) = ground (arith, contains-keys k m)

  pub keys_absent : (k : ℕ) (m : List (ℕ × V)) → lookup k m ≡ none → contains (keys m) k ≡ false
  unfolding lookup
  keys_absent k [] h = refl
  keys_absent k ((j, v) ∷ m) h = ground (arith, keys_absent k m)

  keys-Unique : (m : List (ℕ × V)) → Distinct m → Unique (keys m)
  keys-Unique [] d = tt
  keys-Unique ((k, v) ∷ m) d = (keys_absent k m d.0, keys-Unique m d.1)

  -- The keys up to a bound, sorted.
  abbrev pub due : ℕ → List (ℕ × V) → List ℕ
  due cutoff m = sort (filter (λ sec. leb sec cutoff) (keys m))

  pub due-Ascending : (cutoff : ℕ) (m : List (ℕ × V)) → Distinct m → Ascending (due cutoff m)
  due-Ascending cutoff m d = sort-Ascending _ (filter-Unique _ (keys m) (keys-Unique m d))

  pub contains-due :
      (cutoff k : ℕ) (m : List (ℕ × V))
      → contains (due cutoff m) k ≡ (leb k cutoff && contains (keys m) k)
  contains-due cutoff k m = contains-sort k _ ∙ contains-filter _ k (keys m)

  pub due-le : (cutoff : ℕ) (m : List (ℕ × V)) → All (λ x. x ≤ cutoff) (due cutoff m)
  due-le cutoff m = All-sort (λ x. x ≤ cutoff) _ (filter-le (keys m))
    where
      filter-le : (xs : List ℕ) → All (λ x. x ≤ cutoff) (filter (λ sec. leb sec cutoff) xs)
      filter-le [] = tt
      filter-le (x ∷ xs) = ground (arith, filter-le xs)
