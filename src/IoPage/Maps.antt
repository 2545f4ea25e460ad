-- ===== src/IoPage/Maps.antt =====
-- The Unibus map registers of the I/O page: `ubm_read` and `ubm_write` of src/core/cpu/cpu.c.
use emulator_pdp.Prelude.{
  ℕ, ◌+◌, ◌*◌, ◌^◌, ◌/◌, ◌%◌, bit_and, bit_or, and_not, tst, sub16, false, ◌≡◌, ◌∙◌, refl, arith,
  if◌then◌else◌, Bool-cases, inl, inr, ◌==◌, ==_refl, ◌-◌,
}
use emulator_pdp.State.{Cpu}
use emulator_pdp.Bits.{bit_and_low, bit_or_fields, bit_or_comm, bit_and_parts, and_not-add-bit_and}
use emulator_pdp.IoPage.{ubm_read, ubm_write, ubm_base, ubm_slot}

-- The masks of the map registers as arithmetic.
even_word : (x : ℕ) → bit_and x 0o177776 ≡ x % 2 ^ 16 - x % 2
even_word x = omega (arith, bit_and_parts x 1 0o177776 refl, bit_and_low 1 x, bit_and_low 16 x)

even_22 : (x : ℕ) → bit_and x 0o17777776 ≡ x % 2 ^ 22 - x % 2
even_22 x = omega (arith, bit_and_parts x 1 0o17777776 refl, bit_and_low 1 x, bit_and_low 22 x)

high_part : (x : ℕ) → and_not x 0o177777 ≡ x / 2 ^ 16 * 2 ^ 16
high_part x = omega (arith, and_not-add-bit_and x 0o177777, bit_and_low 16 x)

written_high :
    (old value : ℕ)
    → bit_or (bit_and old 0o177777) (bit_and value 0o77 * 2 ^ 16)
      ≡ old % 2 ^ 16 + value % 2 ^ 6 * 2 ^ 16
written_high old value =
    rw (bit_and_low 16 old, bit_and_low 6 value)
      (bit_or_fields 16 (value % 2 ^ 6) (old % 2 ^ 16) (omega arith))

written_low :
    (old value : ℕ)
    → bit_or (and_not old 0o177777) (bit_and value 0o177776)
      ≡ (value % 2 ^ 16 - value % 2) + old / 2 ^ 16 * 2 ^ 16
written_low old value =
    rw (high_part old, even_word value)
      (bit_or_comm (old / 2 ^ 16 * 2 ^ 16) (value % 2 ^ 16 - value % 2)
        ∙ bit_or_fields 16 (old / 2 ^ 16) (value % 2 ^ 16 - value % 2) (omega arith))

-- A register of the Unibus map is read back as it was written, whatever it held: its high half
-- as the low 6 bits of the value, its low half as the value without its lowest bit.
pub ubm_read-ubm_write :
    (a value : ℕ) (c : Cpu)
    → ubm_read (ubm_write a value c) a
      ≡ (if tst (sub16 a ubm_base) 2 then value % 2 ^ 6 else value % 2 ^ 16 - value % 2)
unfolding ubm_read ubm_write
ubm_read-ubm_write a value c =
    let old = c.ub_map (ubm_slot a) in
    elim (Bool-cases (tst (sub16 a ubm_base) 2)) [
      | inl high ↦
          rw (high, ==_refl (ubm_slot a), written_high old value)
            (omega (
              arith,
              even_22 (old % 2 ^ 16 + value % 2 ^ 6 * 2 ^ 16),
              bit_and_low 6 (bit_and (old % 2 ^ 16 + value % 2 ^ 6 * 2 ^ 16) 0o17777776 / 2 ^ 16),
            ))
      | inr low ↦
          rw (low, ==_refl (ubm_slot a), written_low old value)
            (omega (
              arith,
              even_22 ((value % 2 ^ 16 - value % 2) + old / 2 ^ 16 * 2 ^ 16),
              even_word (bit_and ((value % 2 ^ 16 - value % 2) + old / 2 ^ 16 * 2 ^ 16) 0o17777776),
            ))
    ]

-- A write of either half of a register of the Unibus map leaves what is read of every other
-- register as it was.
ubm_read-ubm_write_other :
    (a b value : ℕ) (c : Cpu)
    → (ubm_slot a == ubm_slot b) ≡ false
    → ubm_read (ubm_write a value c) b ≡ ubm_read c b
unfolding ubm_read ubm_write
ubm_read-ubm_write_other a b value c apart = rw apart refl
