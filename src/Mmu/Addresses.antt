-- ===== src/Mmu/Addresses.antt =====
-- `mmu_relocate` and `unibus_map`: the physical addresses they give.
use emulator_pdp.Prelude.{
  ℕ, ◌+◌, ◌*◌, ◌^◌, ◌/◌, ◌%◌, ◌<◌, bit_and, bit_or, tst, Bool, true, false, ◌≡◌, refl, ap, ◌∙◌, leb,
  ◌==◌, ◌&&◌, arith, if◌then◌else◌, Bool-cases, inl, inr,
}
use emulator_pdp.State.{Cpu}
use emulator_pdp.Monad.{ok, value_or, aborted, cpu_bus_fault}
use emulator_pdp.Bits.{bit_and_low, bit_or_fields, bit_or_comm, bit_and-le}
use emulator_pdp.Mmu.{
  mmu_relocate, unmapped, relocated, is_iopage, unibus_map, apr_of, page_error, accessed,
  iopage_top, mmr0_mme, mmr3_m22e, mmr3_bme,
}

top_or : (r : ℕ) → r < 2 ^ 18 → bit_or 0o17000000 r ≡ r + 0o17000000
top_or r h = bit_or_comm 0o17000000 r ∙ bit_or_fields 18 15 r h

page_or : (r : ℕ) → r < 2 ^ 16 → bit_or 0o17600000 r ≡ r + 0o17600000
page_or r h = bit_or_comm 0o17600000 r ∙ bit_or_fields 16 63 r h

unmapped-sum :
    (va : ℕ) → va < 2 ^ 16 → unmapped va ≡ va + (if leb 0o160000 va then 0o17600000 else 0)
unmapped-sum va h = ground (arith, bit_and_low 16 va, page_or va h)

-- With management off, a 16-bit address is its own below the top 8 KB of its 64 KB, the top 8 KB
-- are moved to the top of the physical space, and exactly these are taken for the I/O page.
pub mmu_relocate-off :
    (va mode : ℕ) (is_write dspace : Bool) (c : Cpu)
    → tst c.mmr0 mmr0_mme ≡ false
    → va < 2 ^ 16
    → (mmu_relocate va is_write mode dspace c
        ≡ ok (va + (if leb 0o160000 va then 0o17600000 else 0)) c)
      × (is_iopage (value_or 0 (mmu_relocate va is_write mode dspace c)) ≡ leb 0o160000 va)
unfolding mmu_relocate is_iopage
mmu_relocate-off va mode is_write dspace c off h =
    rw off (ap (λ t. ok t c) (unmapped-sum va h), ground (arith, unmapped-sum va h))

relocated-sum :
    (c : Cpu) (idx va : ℕ)
    → c.par idx < 2 ^ 16
    → relocated c idx va ≡ (
        let pa = va % 2 ^ 13 + c.par idx * 2 ^ 6 in
        if tst c.mmr3 mmr3_m22e
        then pa % 2 ^ 22
        else pa % 2 ^ 18 + (if leb 0o760000 (pa % 2 ^ 18) then 0o17000000 else 0))
relocated-sum c idx va h = ground (
  arith,
  bit_and_low 13 va,
  bit_and_low 22 (va % 2 ^ 13 + c.par idx * 2 ^ 6),
  bit_and_low 18 ((va % 2 ^ 13 + c.par idx * 2 ^ 6) % 2 ^ 22),
  top_or ((va % 2 ^ 13 + c.par idx * 2 ^ 6) % 2 ^ 18),
)

unmapped-lt : (va : ℕ) → unmapped va < 2 ^ 22
unmapped-lt va = ground (arith, bit_and_low 16 va, page_or (va % 2 ^ 16))

relocated-lt : (c : Cpu) (idx va : ℕ) → relocated c idx va < 2 ^ 22
relocated-lt c idx va =
    let pa = bit_and va 0o17777 + c.par idx * 2 ^ 6 in
    ground (
      arith,
      bit_and-le (pa % 2 ^ 32) 0o17777777,
      bit_and_low 18 (bit_and (pa % 2 ^ 32) 0o17777777),
      top_or (bit_and (pa % 2 ^ 32) 0o17777777 % 2 ^ 18),
    )

mmu_relocate-value_lt :
    (va mode : ℕ) (is_write dspace : Bool) (c : Cpu)
    → value_or 0 (mmu_relocate va is_write mode dspace c) < 2 ^ 22
unfolding mmu_relocate cpu_bus_fault
mmu_relocate-value_lt va mode is_write dspace c = elim (Bool-cases (tst c.mmr0 mmr0_mme)) [
  | inl on ↦
      let idx = apr_of c va mode dspace in
      elim (Bool-cases (page_error (c.pdr idx) va is_write == 0)) [
        | inl free ↦ rw (on, free) (relocated-lt (accessed idx is_write c) idx va)
        | inr bad ↦ rw (on, bad) (omega arith)
      ]
  | inr off ↦ rw off (unmapped-lt va)
]

-- With management on, a reference that its descriptor permits, through a page register of 16
-- bits, is translated and not aborted. Its physical address is the offset in the page and the
-- base in blocks of 64 bytes, modulo 22 bits, or modulo 18 bits with the top 8 KB moved to the
-- top of the 22 bits.
pub mmu_relocate-mapped :
    (va mode : ℕ) (is_write dspace : Bool) (c : Cpu)
    → tst c.mmr0 mmr0_mme ≡ true
    → c.par (apr_of c va mode dspace) < 2 ^ 16
    → (page_error (c.pdr (apr_of c va mode dspace)) va is_write == 0) ≡ true
    → (aborted (mmu_relocate va is_write mode dspace c) ≡ false)
      × (value_or 0 (mmu_relocate va is_write mode dspace c) ≡ (
          let pa = va % 2 ^ 13 + c.par (apr_of c va mode dspace) * 2 ^ 6 in
          if tst c.mmr3 mmr3_m22e
          then pa % 2 ^ 22
          else pa % 2 ^ 18 + (if leb 0o760000 (pa % 2 ^ 18) then 0o17000000 else 0)))
unfolding mmu_relocate
mmu_relocate-mapped va mode is_write dspace c on fits free =
    rw (on, free)
      (refl, relocated_same is_write ∙ relocated-sum c (apr_of c va mode dspace) va fits)
  where
    relocated_same :
        (w : Bool)
        → relocated (accessed (apr_of c va mode dspace) w c) (apr_of c va mode dspace) va
          ≡ relocated c (apr_of c va mode dspace) va
    relocated_same true = refl
    relocated_same false = refl

-- A translation that is not aborted gives an address of the 22-bit physical space.
pub mmu_relocate-lt :
    (va mode pa : ℕ) (is_write dspace : Bool) (c c' : Cpu)
    → mmu_relocate va is_write mode dspace c ≡ ok pa c'
    → pa < 2 ^ 22
mmu_relocate-lt va mode pa is_write dspace c c' h =
    omega (arith, ap (value_or 0) h, mmu_relocate-value_lt va mode is_write dspace c)

-- A DMA address goes to the 22-bit physical space: with the map off or absent it is kept to the 18
-- bits of the Unibus, and through the map it never leaves the 22 bits.
unibus_map-bounds :
    (c : Cpu) (uba : ℕ)
    → unibus_map c uba < (if c.cfg.has_ubm && tst c.mmr3 mmr3_bme then 2 ^ 22 else 2 ^ 18)
unfolding unibus_map
unibus_map-bounds c uba = ground (
  arith,
  bit_and_low 18 uba,
  bit_and-le ((iopage_top + bit_and uba 0o17777) % 2 ^ 32) 0o17777777,
  bit_and-le ((c.ub_map (bit_and (uba / 2 ^ 13) 0o37) + bit_and uba 0o17777) % 2 ^ 32) 0o17777777,
)
