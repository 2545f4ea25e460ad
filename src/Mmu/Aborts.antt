-- ===== src/Mmu/Aborts.antt =====
-- The aborts of `mmu_relocate` (src/core/cpu/cpu.c), by the fields of the registers.
use emulator_pdp.Prelude.{
  ℕ, ◌+◌, ◌*◌, ◌^◌, ◌/◌, ◌%◌, ◌<◌, bit_and, bit_or, and_not, tst, u16, ◌<<<◌, Bool, true, false,
  ◌≡◌, refl, ap, ◌∙◌, ◌==◌, not, sym, ◌&&◌, arith, Bool-cases, inl, inr, if◌then◌else◌, bool_to_ℕ,
}
use emulator_pdp.State.{Cpu}
use emulator_pdp.Monad.{state_of, aborted, cpu_bus_fault}
use emulator_pdp.Bits.{
  bit_and_low, bit_and_parts, bit_or-bit_and_other, bit_and-u16, merge-under, bit_and-zero,
}
use emulator_pdp.Mmu.{
  mmu_relocate, accessed, capture, apr_of, page_error, acf_violation, dsmask, mmr0_mme, mmr0_freeze,
  mmr0_page, mmr0_pl, pdr_acf,
}
use emulator_pdp.Mmu.Pages.{allows, within, page_error-allows, apr_of-sum}
use emulator_pdp.Mmu.Faults.{aborted-page_error, accessed-mmr0, capture-frozen}

-- The bit of MMR3 by which a mode has its data in a space of its own.
abbrev pub splits : ℕ → ℕ → Bool
splits mode mmr3 =
    if mode == 0
    then mmr3 / 4 % 2 == 1
    else if mode == 1
    then mmr3 / 2 % 2 == 1
    else if mode == 2
    then false
    else mmr3 % 2 == 1

splits_lem : (mode mmr3 : ℕ) → tst mmr3 (dsmask mode) ≡ splits mode mmr3
splits_lem mode mmr3 = ground (
  arith,
  bit_and_parts mmr3 3 4 refl,
  bit_and_parts mmr3 1 2 refl,
  bit_and_low 1 mmr3,
  bit_and_low 2 mmr3,
  bit_and_low 3 mmr3,
  bit_and-zero mmr3,
)

-- The page of a reference: sixteen to a mode, eight to a space, and one by the top three bits.
abbrev pub page_of : ℕ → ℕ → Bool → ℕ → ℕ
page_of va mode dspace mmr3 =
    mode * 16 + (if dspace && splits mode mmr3 then 8 else 0) + va / 2 ^ 13

apr_of-page_of :
    (c : Cpu) (va mode : ℕ) (dspace : Bool)
    → va < 2 ^ 16
    → apr_of c va mode dspace ≡ page_of va mode dspace c.mmr3
apr_of-page_of c va mode dspace h =
    apr_of-sum c va mode dspace h
    ∙ ap (λ b. mode * 16 + bool_to_ℕ (dspace && b) * 8 + va / 2 ^ 13) (splits_lem mode c.mmr3)
    ∙ eight (dspace && splits mode c.mmr3)
  where
    eight :
        (b : Bool)
        → mode * 16 + bool_to_ℕ b * 8 + va / 2 ^ 13 ≡ mode * 16 + (if b then 8 else 0) + va / 2 ^ 13
    eight true = refl
    eight false = refl

acf_violation-page :
    (acf : ℕ) (is_write : Bool) → bit_and (acf_violation acf is_write) mmr0_page ≡ 0
unfolding acf_violation
acf_violation-page acf true = ground arith
acf_violation-page acf false = ground arith

-- An error has no bit of the field of the page.
page_error-page :
    (pdr va : ℕ) (is_write : Bool) → bit_and (page_error pdr va is_write) mmr0_page ≡ 0
unfolding page_error
page_error-page pdr va is_write = ground (
  arith,
  acf_violation-page (bit_and pdr pdr_acf) is_write,
  bit_or-bit_and_other (acf_violation (bit_and pdr pdr_acf) is_write) mmr0_pl mmr0_page refl,
)

page_field : (idx : ℕ) → idx < 64 → bit_and (idx * 2) mmr0_page ≡ idx * 2
page_field idx h = omega (
  arith,
  bit_and_parts (idx * 2) 1 mmr0_page refl,
  bit_and_low 1 (idx * 2),
  bit_and_low 7 (idx * 2),
)

captured_page :
    (idx err : ℕ) (c : Cpu)
    → idx < 64
    → bit_and err mmr0_page ≡ 0
    → tst c.mmr0 mmr0_freeze ≡ false
    → bit_and (capture idx err c).mmr0 mmr0_page ≡ idx * 2
captured_page idx err c fits apart thawed =
    let old = and_not c.mmr0 mmr0_page in
    let clear : bit_and err mmr0_page ≡ 0 = apart in
    rw thawed (
      bit_or-bit_and_other (u16 (bit_or old (idx <<< 1))) err mmr0_page clear
      ∙ bit_and-u16 (bit_or old (idx <<< 1)) mmr0_page refl
      ∙ ap (λ t. bit_and (bit_or old t) mmr0_page) (sym (page_field idx fits))
      ∙ merge-under c.mmr0 (idx * 2) mmr0_page
      ∙ page_field idx fits)

module _ (va mode : ℕ) (is_write dspace : Bool) (c : Cpu) where
  -- Whether a reference is refused: management is on, and its page does not allow it.
  abbrev pub is_refused : Bool
  is_refused =
      let pdr = c.pdr (page_of va mode dspace c.mmr3) in
      tst c.mmr0 mmr0_mme && not (allows (pdr % 2 ^ 3) is_write && within pdr va)

  refused_lem : va < 2 ^ 16 → aborted (mmu_relocate va is_write mode dspace c) ≡ is_refused
  refused_lem h =
      aborted-page_error va mode is_write dspace c
      ∙ ap (λ i. tst c.mmr0 mmr0_mme && not (page_error (c.pdr i) va is_write == 0))
          (apr_of-page_of c va mode dspace h)
      ∙ ap (λ b. tst c.mmr0 mmr0_mme && not b)
          (page_error-allows (c.pdr (page_of va mode dspace c.mmr3)) va is_write)

  page_lem :
      va < 2 ^ 16
      → mode < 4
      → bit_and (state_of (mmu_relocate va is_write mode dspace c)).mmr0 mmr0_page ≡ (
          if aborted (mmu_relocate va is_write mode dspace c) && not (tst c.mmr0 mmr0_freeze)
          then page_of va mode dspace c.mmr3 * 2
          else bit_and c.mmr0 mmr0_page)
  unfolding mmu_relocate cpu_bus_fault
  page_lem h m =
      let idx = apr_of c va mode dspace in
      let err = page_error (c.pdr idx) va is_write in
      let same = apr_of-page_of c va mode dspace h in
      let fits : idx < 64 = ground (arith, same, h, m) in
      elim (Bool-cases (tst c.mmr0 mmr0_mme)) [
        | inl on ↦ elim (Bool-cases (err == 0)) [
          | inl free ↦ rw (on, free) (ap (λ v. bit_and v mmr0_page) (accessed-mmr0 idx is_write c))
          | inr bad ↦ elim (Bool-cases (tst c.mmr0 mmr0_freeze)) [
            | inl frozen ↦
                simp (on, bad)
                  (ap (λ v. bit_and v mmr0_page) (capture-frozen idx err c frozen) ∙ rw frozen refl)
            | inr thawed ↦
                simp (on, bad)
                  (captured_page idx err c fits (page_error-page (c.pdr idx) va is_write) thawed
                    ∙ rw thawed (ap (λ i. i * 2) same))
          ]
        ]
        | inr off ↦ rw off refl
      ]

  vector_lem :
      (state_of (mmu_relocate va is_write mode dspace c)).abort_vec
      ≡ (if aborted (mmu_relocate va is_write mode dspace c) then 0o250 else c.abort_vec)
  unfolding mmu_relocate cpu_bus_fault
  vector_lem = elim (Bool-cases (tst c.mmr0 mmr0_mme)) [
    | inl on ↦ elim (Bool-cases (page_error (c.pdr (apr_of c va mode dspace)) va is_write == 0)) [
      | inl free ↦ rw (on, free) (kept is_write)
      | inr bad ↦ rw (on, bad) refl
    ]
    | inr off ↦ rw off refl
  ]
    where
      kept : (w : Bool) → (accessed (apr_of c va mode dspace) w c).abort_vec ≡ c.abort_vec
      kept true = refl
      kept false = refl

-- A reference at a 16-bit address in one of the four modes is aborted exactly where management is on
-- and its page, found by the mode, the space and the top bits of the address, does not allow it by
-- its access code or its length. The abort goes through the vector 0250, and leaves the number of
-- the page in MMR0 unless an earlier one froze it; a reference that is not aborted leaves both.
pub aborted-mmu_relocate :
    (va mode : ℕ) (is_write dspace : Bool) (c : Cpu)
    → va < 2 ^ 16
    → mode < 4
    → let r = mmu_relocate va is_write mode dspace c in
      (aborted r ≡ is_refused va mode is_write dspace c)
      × ((state_of r).abort_vec ≡ (if aborted r then 0o250 else c.abort_vec))
      × (bit_and (state_of r).mmr0 0o176 ≡ (
          if aborted r && not (tst c.mmr0 0o160000)
          then page_of va mode dspace c.mmr3 * 2
          else bit_and c.mmr0 0o176))
aborted-mmu_relocate va mode is_write dspace c h m = (
  refused_lem va mode is_write dspace c h,
  vector_lem va mode is_write dspace c,
  page_lem va mode is_write dspace c h m,
)
