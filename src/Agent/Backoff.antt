-- ===== src/Agent/Backoff.antt =====
-- internal/worker/agent.go: the reconnects of Run. Times are in nanoseconds.
use loadify.Prelude.{
  ℕ, suc, zero, ◌*◌, ◌^◌, ◌≤◌, ◌≡◌, refl, ap, Bool-cases, inl, inr, min, List, [], ◌∷◌, arith, ltb,
  if◌then◌else◌,
}

abbrev pub seconds : ℕ → ℕ
seconds n = n * 1000000000

-- The wait after a session that lasted so long, and the backoff with which the loop goes on.
unfoldable pub reconnect : ℕ → ℕ → ℕ × ℕ
reconnect backoff lasted =
    let wait = if ltb (seconds 30) lasted then seconds 1 else backoff in
    (wait, if ltb wait (seconds 8) then wait * 2 else wait)

-- The waits after sessions of these lengths.
unfoldable pub run_loop : ℕ → List ℕ → List ℕ
unfolding reconnect
run_loop backoff [] = []
run_loop backoff (lasted ∷ sessions) =
    let (wait, next) = reconnect backoff lasted in wait ∷ run_loop next sessions

unfoldable pub run : List ℕ → List ℕ
unfolding run_loop
run sessions = run_loop (seconds 1) sessions

-- The wait that is due after `n` sessions in a row that none before it lasted longer than 30 s.
abbrev pub doubled : ℕ → ℕ
doubled n = seconds (min 8 (2 ^ n))

-- The waits, by the number of short sessions in a row.
unfoldable pub doubling : ℕ → List ℕ → List ℕ
doubling n [] = []
doubling n (lasted ∷ sessions) =
    let m = if ltb (seconds 30) lasted then 0 else n in doubled m ∷ doubling (suc m) sessions

pow-suc : (n : ℕ) → 2 ^ suc n ≡ 2 * 2 ^ n
pow-suc n = omega arith

pow-pos : (n : ℕ) → 1 ≤ 2 ^ n
pow-pos zero = omega arith
pow-pos (suc n) = omega (arith, pow-suc n, pow-pos n)

double-doubled :
    (n : ℕ) → (if ltb (doubled n) (seconds 8) then doubled n * 2 else doubled n) ≡ doubled (suc n)
double-doubled zero = refl
double-doubled (suc zero) = refl
double-doubled (suc (suc zero)) = refl
double-doubled (suc (suc (suc n))) = ground (
  arith,
  pow-pos n,
  pow-suc n,
  pow-suc (suc n),
  pow-suc (suc (suc n)),
  pow-suc (suc (suc (suc n))),
)

run_loop-doubling :
    (n b : ℕ) (sessions : List ℕ) → b ≡ doubled n → run_loop b sessions ≡ doubling n sessions
unfolding run_loop reconnect doubling
run_loop-doubling n b [] h = refl
run_loop-doubling n b (lasted ∷ sessions) h = elim (Bool-cases (ltb (seconds 30) lasted)) [
  | inl long ↦ rw long (ap (λ ws. seconds 1 ∷ ws) (run_loop-doubling 1 (seconds 2) sessions refl))
  | inr short ↦
      rw (short, h)
        (ap (λ ws. doubled n ∷ ws) (run_loop-doubling (suc n) _ sessions (double-doubled n)))
]

-- The agent waits a second before the first reconnect and after a session of more than 30 s, and
-- twice as long after each shorter one, up to eight seconds: the waits are 1, 2, 4, 8, 8, ... s
-- until a session lasts long enough.
pub run_lem : (sessions : List ℕ) → run sessions ≡ doubling 0 sessions
unfolding run
run_lem sessions = run_loop-doubling 0 (seconds 1) sessions refl
