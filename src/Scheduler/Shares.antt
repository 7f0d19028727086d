-- ===== src/Scheduler/Shares.antt =====
-- The shares of a split sum up to the whole and differ by one at most.
use loadify.Prelude.{
  ℕ, zero, suc, ◌+◌, ◌*◌, ◌/◌, ◌%◌, min, ◌≤◌, ◌<◌, ◌≡◌, refl, ap, ◌∙◌, List, [], ◌∷◌, map, arith,
  get_elem?, get_or, length, sum_of, ltb, if◌then◌else◌,
}
use loadify.Dict.{measure}
use loadify.Scheduler.{RampStage, split_loop, split_even, slice_stage, slice_rows, slice_ramp}

get_or-split_loop :
    (base rem i k j : ℕ)
    → j < k
    → get_or (split_loop base rem i k) j 0 ≡ (if ltb (i + j) rem then base + 1 else base)
unfolding split_loop
get_or-split_loop base rem i zero j h = absurd (omega arith)
get_or-split_loop base rem i (suc k) zero h = ground arith
get_or-split_loop base rem i (suc k) (suc j) h =
    ground (arith, get_or-split_loop base rem (i + 1) k j)

-- The share of index `i`, in closed form.
pub get_or-split_even :
    (total n i : ℕ)
    → i < n
    → get_or (split_even total n) i 0 ≡ (if ltb i (total % n) then total / n + 1 else total / n)
unfolding split_even
get_or-split_even total n i h = ground (arith, get_or-split_loop (total / n) (total % n) 0 n i)

-- A number of the stage at index `s`, and 0 past the end.
abbrev pub at_stage : (RampStage → ℕ) → ℕ → List RampStage → ℕ
at_stage f s ramp = measure f (get_elem? ramp s)

at_stage-map :
    (f g : RampStage → ℕ) (h : RampStage → RampStage) (k : ℕ → ℕ) (s : ℕ) (ramp : List RampStage)
    → ((st : RampStage) → f (h st) ≡ k (g st))
    → k 0 ≡ 0
    → at_stage f s (map h ramp) ≡ k (at_stage g s ramp)
at_stage-map f g h k s [] e z = ground arith
at_stage-map f g h k zero (x ∷ ramp) e z = e x
at_stage-map f g h k (suc s) (x ∷ ramp) e z = at_stage-map f g h k s ramp e z

-- The workers `i`, …, `i + k - 1` together, of the targets that `f` reads.
rows_total :
    (f : RampStage → ℕ) (global : List RampStage) (n s i k : ℕ)
    → ((j : ℕ) (st : RampStage) → f (slice_stage n j st) ≡ get_or (split_even (f st) n) j 0)
    → i + k ≤ n
    → sum_of (at_stage f s) (slice_rows global n i k) + min (at_stage f s global % n) i
      ≡ k * (at_stage f s global / n) + min (at_stage f s global % n) (i + k)
unfolding slice_rows
rows_total f global n s i zero e h = omega arith
rows_total f global n s i (suc k) e h = ground (
  arith,
  rows_total f global n s (i + 1) k e,
  at_stage-map f f (slice_stage n i) (λ t. get_or (split_even t n) i 0) s global (e i),
  get_or-split_even 0 n i,
  get_or-split_even (at_stage f s global) n i,
)

slice_ramp_total :
    (f : RampStage → ℕ) (global : List RampStage) (n s : ℕ)
    → ((j : ℕ) (st : RampStage) → f (slice_stage n j st) ≡ get_or (split_even (f st) n) j 0)
    → 0 < n
    → sum_of (at_stage f s) (slice_ramp global n) ≡ at_stage f s global
unfolding slice_ramp
slice_ramp_total f global n s e h = ground (arith, rows_total f global n s 0 n e)

length-slice_rows : (global : List RampStage) (n i k : ℕ) → length (slice_rows global n i k) ≡ k
unfolding slice_rows
length-slice_rows global n i zero = refl
length-slice_rows global n i (suc k) = ap suc (length-slice_rows global n (i + 1) k)

-- For at least one worker, there is one ramp for each worker, and at every stage the workers'
-- virtual users sum up to the stage's, and their request rates to the stage's.
pub slice_ramp_exact :
    (global : List RampStage) (n s : ℕ)
    → 0 < n
    → (length (slice_ramp global n) ≡ n)
      × (sum_of (at_stage (λ st. st.target_vus) s) (slice_ramp global n)
          ≡ at_stage (λ st. st.target_vus) s global)
      × (sum_of (at_stage (λ st. st.target_rps) s) (slice_ramp global n)
          ≡ at_stage (λ st. st.target_rps) s global)
unfolding slice_ramp slice_stage
slice_ramp_exact global n s h = (
  ground (arith, length-slice_rows global n 0 n),
  slice_ramp_total (λ st. st.target_vus) global n s (λ j st. refl) h,
  slice_ramp_total (λ st. st.target_rps) global n s (λ j st. refl) h,
)

get_or-slice_rows :
    (global : List RampStage) (n i k j : ℕ)
    → j < k
    → get_or (slice_rows global n i k) j [] ≡ map (slice_stage n (i + j)) global
unfolding slice_rows
get_or-slice_rows global n i zero j h = absurd (omega arith)
get_or-slice_rows global n i (suc k) zero h = ground arith
get_or-slice_rows global n i (suc k) (suc j) h =
    ground (arith, get_or-slice_rows global n (i + 1) k j)

get_or-slice_ramp :
    (global : List RampStage) (n j : ℕ)
    → j < n
    → get_or (slice_ramp global n) j [] ≡ map (slice_stage n j) global
unfolding slice_ramp
get_or-slice_ramp global n j h = ground (arith, get_or-slice_rows global n 0 n j)

-- The ramp of worker `i`.
abbrev pub ramp_of : List RampStage → ℕ → ℕ → List RampStage
ramp_of global n i = get_or (slice_ramp global n) i []

module _ (global : List RampStage) (n i : ℕ) (s : ℕ) (h : i < n) where
  ramp_of-share :
      (f : RampStage → ℕ)
      → ((j : ℕ) (st : RampStage) → f (slice_stage n j st) ≡ get_or (split_even (f st) n) j 0)
      → at_stage f s (ramp_of global n i) ≡ (
          if ltb i (at_stage f s global % n)
          then at_stage f s global / n + 1
          else at_stage f s global / n)
  ramp_of-share f e = rw (get_or-slice_ramp global n i h) (
      at_stage-map f f (slice_stage n i) (λ t. get_or (split_even t n) i 0) s global (e i)
        (ground (arith, get_or-split_even 0 n i))
      ∙ get_or-split_even (at_stage f s global) n i h)

  ramp_of-duration :
      at_stage (λ st. st.duration_ms) s (ramp_of global n i)
      ≡ at_stage (λ st. st.duration_ms) s global
  unfolding slice_stage
  ramp_of-duration = rw (get_or-slice_ramp global n i h) (
      at_stage-map (λ st. st.duration_ms) (λ st. st.duration_ms) (slice_stage n i) (λ t. t) s global
        (λ st. refl) refl)

-- Of two workers the one with the lower index gets as much as the other at every stage or one
-- more, in virtual users and in request rate, and both keep the stage's duration.
pub slice_ramp_fair :
    (global : List RampStage) (n i j s : ℕ)
    → i ≤ j
    → j < n
    → let first = ramp_of global n i in
      let later = ramp_of global n j in
      (at_stage (λ st. st.target_vus) s later ≤ at_stage (λ st. st.target_vus) s first)
      × (at_stage (λ st. st.target_vus) s first ≤ at_stage (λ st. st.target_vus) s later + 1)
      × (at_stage (λ st. st.target_rps) s later ≤ at_stage (λ st. st.target_rps) s first)
      × (at_stage (λ st. st.target_rps) s first ≤ at_stage (λ st. st.target_rps) s later + 1)
      × (at_stage (λ st. st.duration_ms) s first ≡ at_stage (λ st. st.duration_ms) s later)
unfolding slice_stage
slice_ramp_fair global n i j s le lt =
    let hi : i < n = omega arith in
    ground (
      arith,
      ramp_of-share global n i s hi (λ st. st.target_vus) (λ _ _. refl),
      ramp_of-share global n j s lt (λ st. st.target_vus) (λ _ _. refl),
      ramp_of-share global n i s hi (λ st. st.target_rps) (λ _ _. refl),
      ramp_of-share global n j s lt (λ st. st.target_rps) (λ _ _. refl),
      ramp_of-duration global n i s hi,
      ramp_of-duration global n j s lt,
    )
