-- ===== src/Mmu/Faults.antt =====
-- The aborts of `mmu_relocate` (src/core/cpu/cpu.c), and what they leave in MMR0.
use emulator_pdp.Prelude.{
  ℕ, bit_and, bit_or, and_not, tst, u16, ◌<<<◌, Bool, true, false, ◌≡◌, refl, ap, ◌∙◌, ◌==◌, not,
  sym, ◌&&◌, arith, Bool-cases, ◌⊎◌, inl, inr, List, [], ◌∷◌,
}
use emulator_pdp.State.{Cpu}
use emulator_pdp.Monad.{state_of, aborted, cpu_bus_fault}
use emulator_pdp.Bits.{
  bit_and-le, bit_or-add-bit_and, bit_ext, bit-bit_and, bit-bit_or, bit_and_comm,
}
use emulator_pdp.Mmu.{
  mmu_relocate, accessed, capture, apr_of, page_error, acf_violation, mmr0_mme, mmr0_freeze,
  mmr0_page, mmr0_pl, pdr_acf,
}

-- A bit that one side has, the union has.
tst-bit_or : (a b m : ℕ) → tst b m ≡ true → tst (bit_or a b) m ≡ true
tst-bit_or a b m h =
    let spread : bit_and (bit_or a b) m ≡ bit_or (bit_and a m) (bit_and b m) = bit_ext _ _ (λ k.
      omega (
        arith,
        bit-bit_and k (bit_or a b) m,
        bit-bit_or k a b,
        bit-bit_or k (bit_and a m) (bit_and b m),
        bit-bit_and k a m,
        bit-bit_and k b m,
      )) in
    ground (
      arith,
      spread,
      bit_or-add-bit_and (bit_and a m) (bit_and b m),
      bit_and-le (bit_and b m) (bit_and a m),
      bit_and_comm (bit_and a m) (bit_and b m),
    )

acf_violation-freezes :
    (acf : ℕ) (is_write : Bool)
    → (acf_violation acf is_write ≡ 0) ⊎ (tst (acf_violation acf is_write) mmr0_freeze ≡ true)
unfolding acf_violation
acf_violation-freezes acf true = ground arith
acf_violation-freezes acf false = ground arith

-- Every error holds one of the three bits that freeze MMR0.
page_error-freezes :
    (pdr va : ℕ) (is_write : Bool)
    → (page_error pdr va is_write == 0) ≡ false
    → tst (page_error pdr va is_write) mmr0_freeze ≡ true
unfolding page_error
page_error-freezes pdr va is_write bad = ground (
  arith,
  tst-bit_or (acf_violation (bit_and pdr pdr_acf) is_write) mmr0_pl mmr0_freeze refl,
  acf_violation-freezes (bit_and pdr pdr_acf) is_write,
)

capture-freezes :
    (idx err : ℕ) (c : Cpu)
    → tst err mmr0_freeze ≡ true
    → tst (capture idx err c).mmr0 mmr0_freeze ≡ true
capture-freezes idx err c h = elim (Bool-cases (tst c.mmr0 mmr0_freeze)) [
  | inl frozen ↦ rw frozen frozen
  | inr thawed ↦
      rw thawed (tst-bit_or (u16 (bit_or (and_not c.mmr0 mmr0_page) (idx <<< 1))) err mmr0_freeze h)
]

-- A reference as the processor makes it, and the machine after some of them.
pub record Reference : Type 0 where
  pub va : ℕ
  pub mode : ℕ
  pub is_write : Bool
  pub dspace : Bool

abbrev pub refer : Reference → Cpu → Cpu
refer p c = state_of (mmu_relocate p.va p.is_write p.mode p.dspace c)

abbrev pub after : List Reference → Cpu → Cpu
after [] c = c
after (p ∷ ps) c = after ps (refer p c)

-- A reference is aborted exactly where management is on and its descriptor raises an error.
pub aborted-page_error :
    (va mode : ℕ) (is_write dspace : Bool) (c : Cpu)
    → aborted (mmu_relocate va is_write mode dspace c)
      ≡ (tst c.mmr0 mmr0_mme && not (page_error (c.pdr (apr_of c va mode dspace)) va is_write == 0))
unfolding mmu_relocate cpu_bus_fault
aborted-page_error va mode is_write dspace c = elim (Bool-cases (tst c.mmr0 mmr0_mme)) [
  | inl on ↦ elim (Bool-cases (page_error (c.pdr (apr_of c va mode dspace)) va is_write == 0)) [
    | inl free ↦ rw (on, free) refl
    | inr bad ↦ rw (on, bad) refl
  ]
  | inr off ↦ rw off refl
]

-- An abort leaves MMR0 frozen.
aborted-freezes :
    (va mode : ℕ) (is_write dspace : Bool) (c : Cpu)
    → aborted (mmu_relocate va is_write mode dspace c) ≡ true
    → tst (state_of (mmu_relocate va is_write mode dspace c)).mmr0 mmr0_freeze ≡ true
unfolding mmu_relocate cpu_bus_fault
aborted-freezes va mode is_write dspace c h =
    let idx = apr_of c va mode dspace in
    let err = page_error (c.pdr idx) va is_write in
    let e = aborted-page_error va mode is_write dspace c in
    let both : (tst c.mmr0 mmr0_mme && not (err == 0)) ≡ true = sym e ∙ h in
    let on : tst c.mmr0 mmr0_mme ≡ true = ground (arith, both) in
    let bad : (err == 0) ≡ false = ground (arith, both) in
    rw (on, bad) (capture-freezes idx err c (page_error-freezes (c.pdr idx) va is_write bad))

pub capture-frozen :
    (idx err : ℕ) (c : Cpu) → tst c.mmr0 mmr0_freeze ≡ true → (capture idx err c).mmr0 ≡ c.mmr0
capture-frozen idx err c frozen = rw frozen refl

pub accessed-mmr0 : (idx : ℕ) (w : Bool) (c : Cpu) → (accessed idx w c).mmr0 ≡ c.mmr0
accessed-mmr0 idx true c = refl
accessed-mmr0 idx false c = refl

refer-frozen : (p : Reference) (c : Cpu) → tst c.mmr0 mmr0_freeze ≡ true → (refer p c).mmr0 ≡ c.mmr0
unfolding mmu_relocate cpu_bus_fault
refer-frozen p c frozen = elim (Bool-cases (tst c.mmr0 mmr0_mme)) [
  | inl on ↦
      let idx = apr_of c p.va p.mode p.dspace in
      elim (Bool-cases (page_error (c.pdr idx) p.va p.is_write == 0)) [
        | inl free ↦ rw (on, free) (accessed-mmr0 idx p.is_write c)
        | inr bad ↦ rw (on, bad) (capture-frozen idx _ c frozen)
      ]
  | inr off ↦ rw off refl
]

after-frozen :
    (ps : List Reference) (c : Cpu) → tst c.mmr0 mmr0_freeze ≡ true → (after ps c).mmr0 ≡ c.mmr0
after-frozen [] c frozen = refl
after-frozen (p ∷ ps) c frozen =
    let e = refer-frozen p c frozen in
    after-frozen ps (refer p c) (ap (λ t. tst t mmr0_freeze) e ∙ frozen) ∙ e

-- Once a reference is aborted, MMR0 stays as that abort left it over any further references,
-- aborted or not.
pub first_abort_stays :
    (p : Reference) (ps : List Reference) (c : Cpu)
    → aborted (mmu_relocate p.va p.is_write p.mode p.dspace c) ≡ true
    → (after ps (refer p c)).mmr0 ≡ (refer p c).mmr0
first_abort_stays p ps c h =
    after-frozen ps (refer p c) (aborted-freezes p.va p.mode p.is_write p.dspace c h)
