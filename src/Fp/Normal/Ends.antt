-- ===== src/Fp/Normal/Ends.antt =====
-- src/core/fp/fp.c: the normalising loop ends, with the leading bit in its place.
use native.Mathlib.Nat.{mul_assoc, mul-le-mul_left, pow-succ', one-le-pow}
use emulator_pdp.Prelude.{
  ℕ, zero, suc, ◌+◌, ◌-◌, ◌*◌, ◌/◌, ◌%◌, ◌^◌, ◌≤◌, ◌<◌, ◌==◌, ◌||◌, leb, bit_and, ap, sym, ◌∙◌, ◌≡◌,
  refl, arith, Bool-cases, inl, inr, true, ==_iff,
}
use emulator_pdp.Bits.{bit_and_low, bit_and_parts}
use emulator_pdp.Instr.Eis.{is_neg}
use emulator_pdp.Fp.Fraction.{Fpac, whole, f_lsh_1}
use emulator_pdp.Fp.Fraction.Whole.{IsFpac, f_lsh_1-whole, f_lsh_1-IsFpac, f_lsh_k-IsFpac}
use emulator_pdp.Fp.Fraction.Shifts.{f_lsh_k-whole, pow_add}
use emulator_pdp.Fp.Round.{Scaled}
use emulator_pdp.Fp.Normal.{
  fp_hidden, shift_up, normalise, coarse_shift, coarse_shifts, normal_fuel,
}
use emulator_pdp.Fp.Add.{renormalise}

-- The fraction of `out` is that of `s` moved up, and its exponent is less by as many places.
pub record IsScaled (s out : Scaled) : Type 0 where
  pub places : ℕ
  pub value : whole out.frac ≡ whole s.frac * 2 ^ places
  pub exponent : (out.exp + places) % 2 ^ 32 ≡ s.exp % 2 ^ 32
  pub halves : IsFpac out.frac
  pub below : whole out.frac < 2 ^ 59

scaled_refl : (s : Scaled) → IsFpac s.frac → whole s.frac < 2 ^ 59 → IsScaled s s
scaled_refl s p h = record {
  places = 0;
  value = omega arith;
  exponent = omega arith;
  halves = p;
  below = h;
}

scaled_trans : (s t u : Scaled) → IsScaled s t → IsScaled t u → IsScaled s u
scaled_trans s t u f g = record {
  places = f.places + g.places;
  value =
      g.value
      ∙ ap (λ x. x * 2 ^ g.places) f.value
      ∙ mul_assoc (whole s.frac) (2 ^ f.places) (2 ^ g.places)
      ∙ ap (λ x. whole s.frac * x) (sym (pow_add f.places g.places));
  exponent = omega (arith, f.exponent, g.exponent);
  halves = g.halves;
  below = g.below;
}

-- A jump of n places, where the bits that the test names and those above them are 0.
coarse_shift-IsScaled :
    (mask n : ℕ) (s : Scaled)
    → n < 32
    → IsFpac s.frac
    → whole s.frac < 2 ^ 59
    → (bit_and s.frac.h (mask * 2 ^ 3) == 0 ≡ true → whole s.frac * 2 ^ n < 2 ^ 59)
    → IsScaled s (coarse_shift mask n s)
unfolding coarse_shift
coarse_shift-IsScaled mask n s small p h fits =
    elim (Bool-cases (bit_and s.frac.h (mask * 2 ^ 3) == 0)) [
      | inl e ↦
          let room = fits e in
          let value = f_lsh_k-whole n s.frac small p (omega (arith, room)) in
          rw e (record {
            places = n;
            value = value;
            exponent = omega (arith, small);
            halves = f_lsh_k-IsFpac n s.frac;
            below = omega (arith, value, room);
          })
      | inr e ↦ rw e (scaled_refl s p h)
    ]

-- The upper bits of a half are 0 where the test finds none.
upper_clear :
    (k m h : ℕ)
    → bit_and (2 ^ k - 1) m ≡ 0
    → 2 ^ k - 1 + m ≡ 2 ^ 27 - 1
    → h < 2 ^ 27
    → bit_and h m == 0 ≡ true
    → h ≡ h % 2 ^ k
upper_clear k m h apart all small e =
    let none_set : bit_and h m ≡ 0 = (==_iff (bit_and h m) 0).0 e in
    omega (
      arith,
      none_set,
      small,
      bit_and_parts h (2 ^ k - 1) m apart,
      ap (bit_and h) all,
      bit_and_low k h,
      bit_and_low 27 h,
    )

coarse_shifts-IsScaled :
    (s : Scaled) → IsFpac s.frac → whole s.frac < 2 ^ 59 → IsScaled s (coarse_shifts s)
unfolding coarse_shifts
coarse_shifts-IsScaled s p h =
    let s1 = coarse_shift 0xff_ffff 24 s in
    let s2 = coarse_shift 0xff_f000 12 s1 in
    let f1 = coarse_shift-IsScaled 0xff_ffff 24 s (omega arith) p h (λ e.
      let low = p.low in
      omega (arith, low, upper_clear 3 0x7ff_fff8 s.frac.h refl refl (omega (arith, h)) e)) in
    let f2 = coarse_shift-IsScaled 0xff_f000 12 s1 (omega arith) f1.halves f1.below (λ e.
      let low = f1.halves.low in
      let b = f1.below in
      omega (arith, low, upper_clear 15 0x7ff_8000 s1.frac.h refl refl (omega (arith, b)) e)) in
    let f3 = coarse_shift-IsScaled 0xfc_0000 6 s2 (omega arith) f2.halves f2.below (λ e.
      let low = f2.halves.low in
      let b = f2.below in
      omega (arith, low, upper_clear 21 0x7e0_0000 s2.frac.h refl refl (omega (arith, b)) e)) in
    scaled_trans s s1 (coarse_shifts s) f1 (scaled_trans s1 s2 (coarse_shifts s) f2 f3)

shift_up-IsScaled : (s : Scaled) → IsFpac s.frac → whole s.frac < 2 ^ 58 → IsScaled s (shift_up s)
unfolding shift_up
shift_up-IsScaled s p h =
    let value = f_lsh_1-whole s.frac p in
    record {
      places = 1;
      value = omega (arith, value, h);
      exponent = omega arith;
      halves = f_lsh_1-IsFpac s.frac;
      below = omega (arith, value, h);
    }

-- Moved up, and the leading bit is in its place.
pub record IsNormalised (s out : Scaled) : Type 0 where
  pub scaled : IsScaled s out
  pub leading : fp_hidden out.frac ≡ 1

hidden_lem : (f : Fpac) → fp_hidden f ≡ f.h / 2 ^ 26 % 2
hidden_lem f = bit_and_low 1 (f.h / 2 ^ 26)

normalise-IsNormalised :
    (fuel : ℕ) (s : Scaled)
    → IsFpac s.frac
    → whole s.frac < 2 ^ 59
    → 2 ^ 58 ≤ whole s.frac * 2 ^ fuel
    → IsNormalised s (normalise fuel s)
unfolding normalise
normalise-IsNormalised zero s p h enough =
    let low = p.low in
    record {
      scaled = scaled_refl s p h;
      leading = omega (arith, low, h, enough, hidden_lem s.frac);
    }
normalise-IsNormalised (suc fuel) s p h enough =
    let low = p.low in
    elim (Bool-cases (fp_hidden s.frac == 0)) [
      | inl e ↦
          let bit = (==_iff (fp_hidden s.frac) 0).0 e in
          let small : whole s.frac < 2 ^ 58 = omega (arith, low, h, bit, hidden_lem s.frac) in
          let doubled : whole (f_lsh_1 s.frac) ≡ whole s.frac * 2 =
            omega (arith, f_lsh_1-whole s.frac p, small) in
          let up = shift_up-IsScaled s p small in
          let next = normalise-IsNormalised fuel (shift_up s) up.halves up.below (
            omega (
              arith,
              enough,
              ap (λ t. whole s.frac * t) (pow-succ' 2 fuel),
              mul_assoc (whole s.frac) 2 (2 ^ fuel),
              ap (λ t. t * 2 ^ fuel) doubled,
            )) in
          rw e (record {
            scaled = scaled_trans s (shift_up s) (normalise fuel (shift_up s)) up next.scaled;
            leading = next.leading;
          })
      | inr e ↦
          rw e
            (record { scaled = scaled_refl s p h; leading = ground (arith, e, hidden_lem s.frac) })
    ]

-- Any number that is not 0 is large enough for the fuel.
fuel_is_enough : (x places y : ℕ) → 0 < x → y ≡ x * 2 ^ places → 2 ^ 58 ≤ y * 2 ^ normal_fuel
fuel_is_enough x places y pos e =
    omega (arith, e, mul-le-mul_left x (one-le-pow places 2 (omega arith)), pos)

-- After a subtraction, the jumps and the loop bring every fraction of 59 bits that is not 0 to
-- normal form within the fuel: the leading bit is at its place, the fraction is the one before
-- times a power of 2, and the exponent is less by as many places.
pub renormalise-IsNormalised :
    (ediff : ℕ) (s : Scaled)
    → IsFpac s.frac
    → 0 < whole s.frac
    → whole s.frac < 2 ^ 59
    → IsNormalised s (renormalise ediff s)
unfolding renormalise
renormalise-IsNormalised ediff s p pos h = elim (Bool-cases (is_neg ediff || leb ediff 1)) [
  | inl e ↦
      let jumps = coarse_shifts-IsScaled s p h in
      let near = coarse_shifts s in
      let done =
        normalise-IsNormalised normal_fuel near jumps.halves jumps.below
          (fuel_is_enough (whole s.frac) jumps.places (whole near.frac) pos jumps.value) in
      rw e (record {
        scaled = scaled_trans s near (normalise normal_fuel near) jumps done.scaled;
        leading = done.leading;
      })
  | inr e ↦ rw e (
      normalise-IsNormalised normal_fuel s p h
        (fuel_is_enough (whole s.frac) 0 (whole s.frac) pos (omega arith)))
]
