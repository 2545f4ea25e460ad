-- ===== src/Fp/Api/Commute.antt =====
-- src/core/fp/fp.c: ADD and MUL give the same whichever operand is the accumulator.
use emulator_pdp.Prelude.{
  ℕ, ◌+◌, ◌^◌, ◌<◌, ◌==◌, bit_and, ap, ◌≡◌, refl, arith, Bool-cases, inl, inr, true, sub32,
}
use emulator_pdp.Bits.{bit_and_low, bit_or-add-bit_and, bit_xor_comm}
use emulator_pdp.Fp.Fraction.{Fpac, whole, fp_bias, get_exp, f_get_frac}
use emulator_pdp.Fp.Fraction.Whole.{IsFpac}
use emulator_pdp.Fp.Round.{to_fac, round_and_pack, pack}
use emulator_pdp.Fp.Add.Swap.{addfp11_comm}
use emulator_pdp.Fp.Mul.{mulfp11, product, one_up, with_sign}
use emulator_pdp.Fp.Mul.Exact.{frac_mulfp11_comm}
use emulator_pdp.Fp.Api.{packed_result, pdp11_fp_add, pdp11_fp_mul}

to_fac-IsFpac : (v fps : ℕ) → IsFpac (to_fac v fps)
unfolding to_fac
to_fac-IsFpac v fps = record { low = ground arith; high = omega arith }

f_get_frac-IsFpac : (f : Fpac) → IsFpac f → IsFpac (f_get_frac f)
unfolding f_get_frac
f_get_frac-IsFpac f p =
    let low = p.low in
    record {
      low = low;
      high =
          omega (arith, bit_or-add-bit_and (bit_and f.h 0x7f_ffff) 0x80_0000, bit_and_low 23 f.h);
    }

f_get_frac-lt : (f : Fpac) → IsFpac f → whole (f_get_frac f) < 2 ^ 56
unfolding f_get_frac
f_get_frac-lt f p =
    let low = p.low in
    omega (arith, low, bit_or-add-bit_and (bit_and f.h 0x7f_ffff) 0x80_0000, bit_and_low 23 f.h)

-- The sum of two numbers does not depend on which of them is in the accumulator, whatever the
-- numbers, the mode and the enabled exceptions: neither the value, nor the overflow, nor the code.
pub pdp11_fp_add_comm : (x y fps : ℕ) → pdp11_fp_add x y fps ≡ pdp11_fp_add y x fps
unfolding pdp11_fp_add
pdp11_fp_add_comm x y fps =
    ap packed_result
      (addfp11_comm (to_fac x fps) (to_fac y fps) fps 0 (to_fac-IsFpac x fps) (to_fac-IsFpac y fps))

product_comm : (x y : Fpac) → IsFpac x → IsFpac y → product x y ≡ product y x
unfolding product
product_comm x y p q =
    let ef =
      frac_mulfp11_comm (f_get_frac x) (f_get_frac y) (f_get_frac-IsFpac x p)
        (f_get_frac-IsFpac y q) (f_get_frac-lt x p) (f_get_frac-lt y q) in
    let ee : sub32 (get_exp x.h + get_exp y.h) fp_bias ≡ sub32 (get_exp y.h + get_exp x.h) fp_bias =
      omega arith in
    λ i. one_up (record { frac = ef i; exp = ee i })

-- Packing takes no more than the sign from the accumulator.
with_sign-round_and_pack :
    (x y f : Fpac) (e fps fec : ℕ)
    → round_and_pack (with_sign x y) e f true fps fec
      ≡ round_and_pack (with_sign y x) e f true fps fec
unfolding round_and_pack pack with_sign
with_sign-round_and_pack x y f e fps fec = rw (bit_xor_comm x.h y.h) refl

mulfp11_comm :
    (x y : Fpac) (fps fec : ℕ) → IsFpac x → IsFpac y → mulfp11 x y fps fec ≡ mulfp11 y x fps fec
unfolding mulfp11
mulfp11_comm x y fps fec p q = elim (Bool-cases (get_exp x.h == 0)) [
  | inl e ↦ elim (Bool-cases (get_exp y.h == 0)) [ inl f ↦ rw (e, f) refl | inr f ↦ rw (e, f) refl ]
  | inr e ↦ elim (Bool-cases (get_exp y.h == 0)) [
    | inl f ↦ rw (e, f) refl
    | inr f ↦
        rw (e, f, product_comm x y p q)
          (with_sign-round_and_pack x y ((product y x).frac) ((product y x).exp) fps fec)
  ]
]

-- The product of two numbers does not depend on which of them is in the accumulator, whatever the
-- numbers, the mode and the enabled exceptions: neither the value, nor the overflow, nor the code.
pub pdp11_fp_mul_comm : (x y fps : ℕ) → pdp11_fp_mul x y fps ≡ pdp11_fp_mul y x fps
unfolding pdp11_fp_mul
pdp11_fp_mul_comm x y fps =
    ap packed_result
      (mulfp11_comm (to_fac x fps) (to_fac y fps) fps 0 (to_fac-IsFpac x fps) (to_fac-IsFpac y fps))
