-- ===== src/Interrupt/Levels.antt =====
-- Which request the arbitration picks, among devices and among program requests.
use emulator_pdp.Prelude.{
  ℕ, zero, suc, ◌+◌, ◌^◌, ◌≤◌, ◌<◌, tst, ltb, ◌==◌, ◌&&◌, Bool, true, false, Option, none, some,
  if◌then◌else◌, u16, ◌≡◌, ◌⊎◌, inl, inr, refl, arith, Bool-cases,
}
use native.Mathlib.Nat.{add-zero}
use emulator_pdp.State.{Cpu}
use emulator_pdp.Interrupt.{
  int_ipl, num_int, highest_int_from, highest_int, highest_pir_from, highest_pir_level,
}

-- `dev` is among the requests.
abbrev pub requested : ℕ → ℕ → Bool
requested int_req dev = tst int_req (2 ^ dev)

-- Of the ids below `d`, `best` is the requested one of the highest level, and of those the lowest.
abbrev pub IsBest : ℕ → ℕ → Option ℕ → ℕ → Type 0
IsBest int_req d none level = (level ≡ 0) × ((e : ℕ) → e < d → requested int_req e ≡ false)
IsBest int_req d (some b) level =
    (level ≡ int_ipl b)
    × (b < d)
    × (requested int_req b ≡ true)
    × ((e : ℕ)
        → e < d
        → requested int_req e ≡ true
        → (int_ipl e < int_ipl b) ⊎ ((int_ipl e ≡ int_ipl b) × (b ≤ e)))

int_ipl_pos : (d : ℕ) → 0 < int_ipl d
int_ipl_pos d = ground arith

-- One more id: the loop keeps its best so far.
module _ (int_req d : ℕ) where
  abbrev better : ℕ → Bool
  better level = requested int_req d && ltb level (int_ipl d)

  IsBest-suc :
      (best : Option ℕ) (level : ℕ)
      → IsBest int_req d best level
      → IsBest int_req
          (d + 1)
          (if better level then some d else best)
          (if better level then int_ipl d else level)
  IsBest-suc none level h = elim (Bool-cases (requested int_req d)) [
    | inl asked ↦
        let wins : ltb level (int_ipl d) ≡ true = ground (arith, int_ipl_pos d, h.0) in
        rw (asked, wins) (refl, omega arith, asked, λ e le want. ground (arith, h.1 e))
    | inr quiet ↦ rw quiet (h.0, λ e le. ground (arith, h.1 e))
  ]
  IsBest-suc (some b) level h = elim (Bool-cases (requested int_req d)) [
    | inl asked ↦ elim (Bool-cases (ltb level (int_ipl d))) [
      | inl wins ↦ rw (asked, wins) (refl, omega arith, asked, λ e le want. ground (arith, h.3 e))
      | inr loses ↦ rw (asked, loses) (h.0, omega arith, h.2, λ e le want. ground (arith, h.3 e))
    ]
    | inr quiet ↦ rw quiet (h.0, omega arith, h.2, λ e le want. ground (arith, h.3 e))
  ]

highest_int_from-IsBest :
    (int_req left d : ℕ) (best : Option ℕ) (level : ℕ)
    → IsBest int_req d best level
    → IsBest int_req
        (d + left)
        (highest_int_from int_req left d best level).0
        (highest_int_from int_req left d best level).1
unfolding highest_int_from
highest_int_from-IsBest int_req zero d best level h = rw add-zero h
highest_int_from-IsBest int_req (suc left) d best level h =
    let e : d + suc left ≡ d + 1 + left = omega arith in
    rw e (highest_int_from-IsBest int_req left (d + 1) _ _ (IsBest-suc int_req d best level h))

-- Of the eight ids, `highest_int` picks a requested one whose level no other requested id exceeds,
-- the lowest id among those of that level, and none exactly where no id is requested.
pub highest_int-IsBest : (c : Cpu) → IsBest c.int_req num_int (highest_int c).0 (highest_int c).1
unfolding highest_int
highest_int-IsBest c = highest_int_from-IsBest c.int_req 8 0 none 0 (refl, λ e le. ground arith)

-- The bit of PIRQ that asks for a level.
abbrev pub asks_level : ℕ → ℕ → Bool
asks_level pirq level = tst pirq (u16 (2 ^ (level + 8)))

-- `level` is the highest of the levels up to `n` that PIRQ asks for, 0 where it asks for none.
abbrev pub IsTop : ℕ → ℕ → ℕ → Type 0
IsTop pirq n level =
    (level ≤ n)
    × ((level ≡ 0) ⊎ (asks_level pirq level ≡ true))
    × ((k : ℕ) → level < k → k ≤ n → asks_level pirq k ≡ false)

above_top :
    (pirq level n k : ℕ)
    → level < k
    → k ≤ suc n
    → asks_level pirq (suc n) ≡ false
    → ((j : ℕ) → level < j → j ≤ n → asks_level pirq j ≡ false)
    → asks_level pirq k ≡ false
above_top pirq level n k above le quiet h = elim (Bool-cases (k == suc n)) [
  | inl top ↦ let e : k ≡ suc n = ground arith in rw e quiet
  | inr below ↦ h k above (ground arith)
]

highest_pir_from-IsTop : (n pirq : ℕ) → IsTop pirq n (highest_pir_from n pirq)
unfolding highest_pir_from
highest_pir_from-IsTop zero pirq = (omega arith, inl refl, λ k. ground arith)
highest_pir_from-IsTop (suc n) pirq =
    let h = highest_pir_from-IsTop n pirq in
    elim (Bool-cases (asks_level pirq (suc n))) [
      | inl asked ↦ rw asked (omega arith, inr asked, λ k. ground arith)
      | inr quiet ↦
          rw quiet (omega arith, h.1, λ k above le. above_top pirq _ n k above le quiet h.2)
    ]

-- The level that `highest_pir_level` picks is the highest of the seven that PIRQ asks for, 0
-- where it asks for none.
pub highest_pir_level-IsTop : (pirq : ℕ) → IsTop pirq 7 (highest_pir_level pirq)
unfolding highest_pir_level
highest_pir_level-IsTop pirq = highest_pir_from-IsTop 7 pirq
