-- ===== src/Scheduler/Workers.antt =====
-- Which workers a run gets.
use loadify.Prelude.{
  ℕ, zero, suc, ◌≡◌, refl, List, [], ◌∷◌, arith, length, take, ℤ, pos, negsuc, ap, sym, min,
  length-take,
}
use loadify.Scheduler.{pick_workers}

-- The workers a request asks for, when there are `n` candidates.
abbrev pub wanted : ℤ → ℕ → ℕ
wanted (negsuc d) n = n
wanted (pos zero) n = n
wanted (pos (suc d)) n = min (suc d) n

take_all {ℓ} : {A : Type ℓ} (xs : List A) → take (length xs) xs ≡ xs
take_all [] = refl
take_all (x ∷ xs) = ap (◌∷◌ x) (take_all xs)

-- The workers picked are the first candidates, as many as the request asks for where it asks
-- for a positive number and there are as many, and all candidates otherwise.
pub pick_workers_prefix :
    {A : Type 0} (candidates : List A) (desired : ℤ)
    → (pick_workers candidates desired ≡ take (wanted desired (length candidates)) candidates)
      × (length (pick_workers candidates desired) ≡ wanted desired (length candidates))
unfolding pick_workers
pick_workers_prefix candidates (negsuc d) = (sym (take_all candidates), refl)
pick_workers_prefix candidates (pos zero) = (sym (take_all candidates), refl)
pick_workers_prefix candidates (pos (suc d)) =
    ground (arith, take_all candidates, length-take (suc d) candidates)
