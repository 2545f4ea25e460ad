-- ===== src/Mmu/Pages.antt =====
-- `mmu_relocate`: which page register a reference goes through, and when its descriptor permits it.
use emulator_pdp.Prelude.{
  ℕ, ◌+◌, ◌*◌, ◌^◌, ◌/◌, ◌%◌, ◌<◌, bit_and, bit_or, tst, Bool, true, false, ◌≡◌, refl, leb, ◌==◌,
  ◌&&◌, ◌||◌, not, arith, if◌then◌else◌, bool_to_ℕ,
}
use emulator_pdp.State.{Cpu}
use emulator_pdp.Bits.{
  bit_and_low, bit_and_parts, bit_or_fields, bit_or_comm, bit_or-add-bit_and, bit_and-le,
  bit_and_comm,
}
use emulator_pdp.Mmu.{acf_violation, page_error, apr_of, dsmask, pdr_ed, pdr_acf, pdr_plf, mmr0_pl}

-- The 8-bit block numbers of an address within its page and of the length field of a descriptor.
abbrev pub block_of : ℕ → ℕ
block_of va = va / 2 ^ 6 % 2 ^ 7

abbrev pub length_of : ℕ → ℕ
length_of pdr = pdr / 2 ^ 8 % 2 ^ 7

block_mask : (va : ℕ) → bit_and va 0o17700 ≡ block_of va * 2 ^ 6
block_mask va =
    omega (arith, bit_and_parts va 0o77 0o17700 refl, bit_and_low 6 va, bit_and_low 13 va)

length_mask : (pdr : ℕ) → bit_and pdr pdr_plf ≡ length_of pdr * 2 ^ 8
length_mask pdr =
    omega (arith, bit_and_parts pdr 0o377 0o77400 refl, bit_and_low 8 pdr, bit_and_low 15 pdr)

-- A page that grows up holds the blocks up to its length, one that grows down those from it.
abbrev pub within : ℕ → ℕ → Bool
within pdr va =
    if tst pdr pdr_ed then leb (length_of pdr) (block_of va) else leb (block_of va) (length_of pdr)

-- The access codes by what they let through: 1 and 2 reads, 4 to 6 reads and writes, 0, 3 and 7
-- nothing.
abbrev pub allows : ℕ → Bool → Bool
allows acf is_write = leb 4 acf && leb acf 6 || not is_write && leb 1 acf && leb acf 2

or_pl : (err : ℕ) → (bit_or err mmr0_pl == 0) ≡ false
or_pl err =
    ground (arith, bit_or-add-bit_and err mmr0_pl, bit_and-le mmr0_pl err, bit_and_comm err mmr0_pl)

acf_violation-allows :
    (acf : ℕ) (is_write : Bool) → (acf_violation acf is_write == 0) ≡ allows acf is_write
unfolding acf_violation
acf_violation-allows acf true = ground arith
acf_violation-allows acf false = ground arith

-- A descriptor raises no error for a reference exactly where its access code lets the reference
-- through and the block of the address lies within the length of the page, from the top down in
-- a page that grows downward.
pub page_error-allows :
    (pdr va : ℕ) (is_write : Bool)
    → (page_error pdr va is_write == 0) ≡ (allows (pdr % 2 ^ 3) is_write && within pdr va)
unfolding page_error
page_error-allows pdr va is_write = ground (
  arith,
  block_mask va,
  length_mask pdr,
  or_pl (acf_violation (bit_and pdr pdr_acf) is_write),
  acf_violation-allows (bit_and pdr pdr_acf) is_write,
  bit_and_low 3 pdr,
)

-- The number of the page register of a reference at a 16-bit address: sixteen by mode, eight by
-- space, where MMR3 separates data from instructions for the mode, and one by the top three bits
-- of the address.
pub apr_of-sum :
    (c : Cpu) (va mode : ℕ) (dspace : Bool)
    → va < 2 ^ 16
    → apr_of c va mode dspace
      ≡ mode * 16 + bool_to_ℕ (dspace && tst c.mmr3 (dsmask mode)) * 8 + va / 2 ^ 13
unfolding apr_of
apr_of-sum c va mode dspace h =
    let ds = bool_to_ℕ (dspace && tst c.mmr3 (dsmask mode)) in
    let inner : bit_or (mode * 2 ^ 4) (ds * 2 ^ 3) ≡ (ds + 2 * mode) * 2 ^ 3 = omega (
      arith,
      bit_or_comm (mode * 2 ^ 4) (ds * 2 ^ 3),
      bit_or_fields 4 mode (ds * 2 ^ 3) (bit_lt _),
    ) in
    rw (bit_and_low 3 (va / 2 ^ 13), inner)
      (omega (
        arith,
        bit_or_comm ((ds + 2 * mode) * 2 ^ 3) (va / 2 ^ 13 % 2 ^ 3),
        bit_or_fields 3 (ds + 2 * mode) (va / 2 ^ 13 % 2 ^ 3) (omega arith),
      ))
  where
    bit_lt : (b : Bool) → bool_to_ℕ b * 2 ^ 3 < 2 ^ 4
    bit_lt true = omega arith
    bit_lt false = omega arith
