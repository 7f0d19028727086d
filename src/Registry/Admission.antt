-- ===== src/Registry/Admission.antt =====
-- Which workers may take a run.
use mathlib.Core.List.{Memᴰ}
use loadify.Prelude.{
  ℕ, ◌≤◌, ◌≡◌, refl, sym, subst, ◌↔◌, ◌⊎◌, inl, inr, true, false, List, [], ◌∷◌, arith, ==_iff,
  length,
}
use loadify.Platform.{Platform, Float, float}
use loadify.Wire.{Protocol, unspecified, protocol_eq}
use loadify.Dict.{values}
use loadify.Registry.{
  Worker, Registry, is_healthy, supports, cpu_utilization, mem_utilization, available,
  available_loop,
}

module _ ⦃p : Platform⦄ where
  -- A utilization is under a threshold, or the threshold is not positive.
  abbrev pub Under : Float → Float → Type 0
  Under util limit = (p.lt_float (float 0) limit ≡ false) ⊎ (p.le_float limit util ≡ false)

  -- A worker seen recently, that drives the protocol, with processor and memory to spare.
  pub record Eligible (proto : Protocol) (cpu_max mem_max : Float) (now : ℕ) (w : Worker)
      : Type 0 where
    pub seen : is_healthy w now ≡ true
    pub drives : (proto ≡ unspecified) ⊎ (supports w proto ≡ true)
    pub cpu_free : Under (cpu_utilization w) cpu_max
    pub mem_free : Under (mem_utilization w) mem_max

  module _ (proto : Protocol) (cpu_max mem_max : Float) (now : ℕ) where
    available_loop_cases :
        (w : Worker) (ws : List Worker)
        → let rest = available_loop ws proto cpu_max mem_max now in
          (Eligible proto cpu_max mem_max now w
            × (available_loop (w ∷ ws) proto cpu_max mem_max now ≡ w ∷ rest))
          ⊎ ((Eligible proto cpu_max mem_max now w → ⊥)
              × (available_loop (w ∷ ws) proto cpu_max mem_max now ≡ rest))
    unfolding available_loop
    available_loop_cases w ws = ground (arith, ==_iff proto unspecified)

    added :
        (w x : Worker) (ws rest : List Worker)
        → Eligible proto cpu_max mem_max now x
        → (Memᴰ w rest → Memᴰ w ws × Eligible proto cpu_max mem_max now w)
        → Memᴰ w (x ∷ rest)
        → Memᴰ w (x ∷ ws) × Eligible proto cpu_max mem_max now w
    added w x ws rest fits later (Memᴰ.head same) =
        (Memᴰ.head same, subst (Eligible proto cpu_max mem_max now) (sym same) fits)
    added w x ws rest fits later (Memᴰ.tail m) = let (found, ok) = later m in (Memᴰ.tail found, ok)

    available_loop_sound :
        (w : Worker) (ws : List Worker)
        → Memᴰ w (available_loop ws proto cpu_max mem_max now)
        → Memᴰ w ws × Eligible proto cpu_max mem_max now w
    unfolding available_loop
    available_loop_sound w [] m = elim m [ ]
    available_loop_sound w (x ∷ ws) m = elim (available_loop_cases x ws) [
      | inl (fits, e) ↦ added w x ws _ fits (available_loop_sound w ws) (subst (Memᴰ w) e m)
      | inr (unfit, e) ↦
          let (found, fits) = available_loop_sound w ws (subst (Memᴰ w) e m) in
          (Memᴰ.tail found, fits)
    ]

    available_loop_complete :
        (w : Worker) (ws : List Worker)
        → Memᴰ w ws
        → Eligible proto cpu_max mem_max now w
        → Memᴰ w (available_loop ws proto cpu_max mem_max now)
    available_loop_complete w [] m fits = elim m [ ]
    available_loop_complete w (x ∷ ws) (Memᴰ.head same) fits = elim (available_loop_cases x ws) [
      | inl (_, e) ↦ rw e (Memᴰ.head same)
      | inr (unfit, e) ↦ absurd (unfit (subst (Eligible proto cpu_max mem_max now) same fits))
    ]
    available_loop_complete w (x ∷ ws) (Memᴰ.tail m) fits = elim (available_loop_cases x ws) [
      | inl (_, e) ↦ rw e (Memᴰ.tail (available_loop_complete w ws m fits))
      | inr (_, e) ↦ rw e (available_loop_complete w ws m fits)
    ]

  -- A worker is available exactly if it is in the registry and eligible.
  pub available_iff_Eligible :
      (r : Registry) (proto : Protocol) (cpu_max mem_max : Float) (now : ℕ) (w : Worker)
      → Memᴰ w (available r proto cpu_max mem_max now)
        ↔ (Memᴰ w (values r.workers) × Eligible proto cpu_max mem_max now w)
  unfolding available
  available_iff_Eligible r proto cpu_max mem_max now w = (
    available_loop_sound proto cpu_max mem_max now w (values r.workers),
    λ (m, fits). available_loop_complete proto cpu_max mem_max now w (values r.workers) m fits,
  )

  available_loop-length :
      (proto : Protocol) (cpu_max mem_max : Float) (now : ℕ) (ws : List Worker)
      → length (available_loop ws proto cpu_max mem_max now)
        ≤ length (available_loop ws unspecified cpu_max mem_max now)
  unfolding available_loop
  available_loop-length proto cpu_max mem_max now [] = omega arith
  available_loop-length proto cpu_max mem_max now (w ∷ ws) =
      let ih = available_loop-length proto cpu_max mem_max now ws in
      elim (available_loop_cases proto cpu_max mem_max now w ws) [
        | inl (fits, e) ↦ elim (available_loop_cases unspecified cpu_max mem_max now w ws) [
          | inl (_, e') ↦ rw (e, e') (omega (arith, ih))
          | inr (unfit, _) ↦ absurd (
              unfit (record {
                seen = fits.seen;
                drives = inl refl;
                cpu_free = fits.cpu_free;
                mem_free = fits.mem_free;
              }))
        ]
        | inr (_, e) ↦ elim (available_loop_cases unspecified cpu_max mem_max now w ws) [
          | inl (_, e') ↦ rw (e, e') (omega (arith, ih))
          | inr (_, e') ↦ rw (e, e') ih
        ]
      ]

  -- What is available for one protocol is no more than what is available for any.
  pub available_any_protocol :
      (r : Registry) (proto : Protocol) (cpu_max mem_max : Float) (now : ℕ)
      → length (available r proto cpu_max mem_max now)
        ≤ length (available r unspecified cpu_max mem_max now)
  unfolding available
  available_any_protocol r proto cpu_max mem_max now =
      available_loop-length proto cpu_max mem_max now (values r.workers)
