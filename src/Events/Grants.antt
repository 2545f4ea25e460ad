-- ===== src/Events/Grants.antt =====
-- The arbitration of `pdp11_cpu_step`: which request is granted, against the priority of the PSW.
use emulator_pdp.Prelude.{
  ℕ, ◌≤◌, ◌<◌, ltb, leb, ◌&&◌, true, Option, none, some, if◌then◌else◌, field, ◌≡◌, ◌⊎◌, inl, inr,
  arith, Bool-cases,
}
use emulator_pdp.State.{Cpu}
use emulator_pdp.Interrupt.{num_int, int_ipl, highest_pir_level}
use emulator_pdp.Interrupt.Levels.{requested, IsBest, highest_int-IsBest}
use emulator_pdp.Events.{Grant, arbitrate}

-- What a grant promises of the requests `int_req`, the priority `ipl` and the program level `pir`.
abbrev pub IsGranted : ℕ → ℕ → ℕ → Grant → Type 0
IsGranted int_req ipl pir (Grant.device dev) =
    (requested int_req dev ≡ true)
    × (dev < num_int)
    × (ipl < int_ipl dev)
    × (pir ≤ int_ipl dev)
    × ((e : ℕ)
        → e < num_int
        → requested int_req e ≡ true
        → (int_ipl e < int_ipl dev) ⊎ ((int_ipl e ≡ int_ipl dev) × (dev ≤ e)))
IsGranted int_req ipl pir Grant.program =
    (ipl < pir) × ((e : ℕ) → e < num_int → requested int_req e ≡ true → int_ipl e < pir)
IsGranted int_req ipl pir Grant.nothing =
    (pir ≤ ipl) × ((e : ℕ) → e < num_int → requested int_req e ≡ true → int_ipl e ≤ ipl)

module _ (int_req ipl pir : ℕ) where
  -- The tests of the arbitration on the values it computed.
  abbrev granted : Option ℕ → ℕ → Grant
  granted best devipl =
      let by_program = if ltb ipl pir then Grant.program else Grant.nothing in
      elim best [
        | some dev ↦ if ltb ipl devipl && leb pir devipl then Grant.device dev else by_program
        | none ↦ by_program
      ]

  below_none :
      (level : ℕ)
      → IsBest int_req num_int none level
      → (e : ℕ) → e < num_int
      → requested int_req e ≡ true
      → (k : ℕ) → int_ipl e < k
  below_none level h e le want k = ground (arith, h.1 e le)

  granted-IsGranted :
      (best : Option ℕ) (level : ℕ)
      → IsBest int_req num_int best level
      → IsGranted int_req ipl pir (granted best level)
  granted-IsGranted none level h = elim (Bool-cases (ltb ipl pir)) [
    | inl wins ↦ rw wins (ground arith, λ e le want. below_none level h e le want _)
    | inr loses ↦ rw loses (ground arith, λ e le want. ground (arith, h.1 e le))
  ]
  granted-IsGranted (some dev) level h = elim (Bool-cases (ltb ipl level && leb pir level)) [
    | inl takes ↦ rw takes (h.2, h.1, ground (arith, h.0), ground (arith, h.0), h.3)
    | inr leaves ↦ rw leaves (elim (Bool-cases (ltb ipl pir)) [
      | inl wins ↦ rw wins (ground arith, λ e le want. ground (arith, h.0, h.3 e))
      | inr loses ↦ rw loses (ground arith, λ e le want. ground (arith, h.0, h.3 e))
    ])
  ]

-- The request that a step grants is the right one. A device is granted only if it asks, its level
-- is above the priority of the PSW and not below the highest program request, and no other asking
-- device is of a higher level, or of the same level with a lower id. A program request is granted
-- only if its level is above the priority and above every asking device. Where none is granted, no
-- asking device and no program request is above the priority.
pub arbitrate-IsGranted :
    (c : Cpu) → IsGranted c.int_req (field c.psw 5 3) (highest_pir_level c.pirq) (arbitrate c)
unfolding arbitrate
arbitrate-IsGranted c = granted-IsGranted _ _ _ _ _ (highest_int-IsBest c)
