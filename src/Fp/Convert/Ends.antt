-- ===== src/Fp/Convert/Ends.antt =====
-- src/core/fp/fp.c: the loop of `pdp11_fp_ldcif` ends, with the leading bit in its place.
use native.Mathlib.Nat.{mul_assoc, pow-succ'}
use emulator_pdp.Prelude.{
  ℕ, zero, suc, ◌+◌, ◌*◌, ◌/◌, ◌%◌, ◌^◌, ◌≤◌, ◌<◌, ◌==◌, ap, sym, ◌∙◌, ◌≡◌, arith, Bool-cases, inl,
  inr, ==_iff,
}
use emulator_pdp.Bits.{bit_and_low}
use emulator_pdp.Fp.Fraction.{get_sign}
use emulator_pdp.Fp.Convert.{Placed, place, place_fuel}

-- The integer is moved up until bit 31 is set, and `i` counts the places.
pub record IsPlaced (bits i : ℕ) (out : Placed) : Type 0 where
  pub places : ℕ
  pub value : out.bits ≡ bits * 2 ^ places
  pub counted : out.i ≡ i + places
  pub leading : 2 ^ 31 ≤ out.bits
  pub within : out.bits < 2 ^ 32

sign_lem : (x : ℕ) → get_sign x ≡ x / 2 ^ 31 % 2
sign_lem x = bit_and_low 1 (x / 2 ^ 31)

place-IsPlaced :
    (fuel bits i : ℕ)
    → bits < 2 ^ 32
    → 2 ^ 31 ≤ bits * 2 ^ fuel
    → IsPlaced bits i (place fuel bits i)
unfolding place
place-IsPlaced zero bits i h enough = record {
  places = 0;
  value = omega arith;
  counted = omega arith;
  leading = omega (arith, enough);
  within = h;
}
place-IsPlaced (suc fuel) bits i h enough = elim (Bool-cases (get_sign bits == 0)) [
  | inl e ↦
      let bit = (==_iff (get_sign bits) 0).0 e in
      let small : bits < 2 ^ 31 = omega (arith, h, bit, sign_lem bits) in
      let doubled : bits * 2 % 2 ^ 32 ≡ bits * 2 = omega (arith, small) in
      let next = place-IsPlaced fuel (bits * 2 % 2 ^ 32) (i + 1) (omega arith) (
        omega (
          arith,
          enough,
          ap (λ t. bits * t) (pow-succ' 2 fuel),
          mul_assoc bits 2 (2 ^ fuel),
          ap (λ t. t * 2 ^ fuel) doubled,
        )) in
      rw e (record {
        places = suc next.places;
        value =
            next.value
            ∙ ap (λ t. t * 2 ^ next.places) doubled
            ∙ mul_assoc bits 2 (2 ^ next.places)
            ∙ ap (λ t. bits * t) (sym (pow-succ' 2 next.places));
        counted = omega (arith, next.counted);
        leading = next.leading;
        within = next.within;
      })
  | inr e ↦ rw e (record {
    places = 0;
    value = omega arith;
    counted = omega arith;
    leading = ground (arith, h, e, sign_lem bits);
    within = h;
  })
]

-- The loop of LDCif ends within its fuel for every integer of 32 bits that is not 0: it moves the
-- integer up until bit 31 is set, and counts the places.
pub place_lem : (bits : ℕ) → 0 < bits → bits < 2 ^ 32 → IsPlaced bits 0 (place place_fuel bits 0)
place_lem bits pos h = place-IsPlaced place_fuel bits 0 h (omega (arith, pos))
