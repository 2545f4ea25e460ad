-- ===== src/Fp/Div.antt =====
-- src/core/fp/fp.c: `divfp11`.
pub mod Exact
use emulator_pdp.Prelude.{
  ℕ, zero, suc, ◌+◌, bit_or, not, ltb, ◌==◌, tst, if◌then◌else◌, sub32, u32, Bool, true,
}
use emulator_pdp.Fp.Fraction.{
  Fpac, fp_bias, get_exp, f_sub, f_lt, f_lsh_v, f_lsh_1, f_is_zero, zero_fac,
}
use emulator_pdp.Fp.Round.{fps_d, Packed, round_and_pack}
use emulator_pdp.Fp.Add.{guarded}
use emulator_pdp.Fp.Mul.{one_up, with_sign}

-- The dividend, the quotient and the rounds that are left.
pub record Division : Type 0 where
  pub rest : Fpac
  pub quo : Fpac
  pub i : ℕ

-- A bit 1 at the end of the quotient, which double precision keeps in the lower half.
abbrev pub set_quo : Bool → Fpac → Fpac
set_quo qd quo = record {
  l = if qd then bit_or quo.l 1 else quo.l;
  h = if qd then quo.h else bit_or quo.h 1;
}

-- One round: a bit of the quotient, and the dividend moved up.
unfoldable pub div_round : Bool → Fpac → Fpac → Fpac → Division
unfolding f_lsh_1 f_lt f_sub
div_round qd divisor rest quo =
    if not (f_lt rest divisor)
    then record { rest = f_lsh_1 (f_sub divisor rest); quo = set_quo qd (f_lsh_1 quo); i = 0 }
    else record { rest = f_lsh_1 rest; quo = f_lsh_1 quo; i = 0 }

-- The loop, from i down, which ends early when nothing is left of the dividend.
unfoldable pub div_rounds : Bool → Fpac → ℕ → Fpac → Fpac → Division
unfolding div_round f_is_zero
div_rounds qd divisor zero rest quo = record { rest = rest; quo = quo; i = 0 }
div_rounds qd divisor (suc i) rest quo =
    let next = div_round qd divisor rest quo in
    let done = div_rounds qd divisor i next.rest next.quo in
    if f_is_zero rest then record { rest = rest; quo = quo; i = suc i } else done

abbrev pub div_count : Bool → ℕ
div_count qd = 26 + (if qd then 33 else 1)

-- The quotient of two guarded fractions, with its leading bit in place or one place short.
unfoldable pub div_frac : Bool → Fpac → Fpac → Fpac
unfolding div_rounds f_lsh_v
div_frac qd divisor dividend =
    let out = div_rounds qd divisor (div_count qd) dividend zero_fac in
    if ltb 0 out.i then f_lsh_v out.quo out.i else out.quo

unfoldable pub divfp11 : Fpac → Fpac → ℕ → ℕ → Packed
unfolding guarded div_frac one_up with_sign round_and_pack
divfp11 fac fsrc fps fec =
    let exp = u32 (sub32 (get_exp fac.h) (get_exp fsrc.h) + fp_bias + 1) in
    let s =
      one_up (record { frac = div_frac (tst fps fps_d) (guarded fsrc) (guarded fac); exp = exp }) in
    if get_exp fac.h == 0
    then record { fac = zero_fac; v = 0; fec = fec }
    else round_and_pack (with_sign fac fsrc) s.exp s.frac true fps fec
