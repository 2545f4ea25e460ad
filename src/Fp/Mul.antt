-- ===== src/Fp/Mul.antt =====
-- src/core/fp/fp.c: `frac_mulfp11`, `mulfp11` and `modfp11`.
pub mod Exact
use emulator_pdp.Prelude.{
  ℕ, zero, suc, ◌+◌, bit_and, bit_or, bit_xor, not, ltb, leb, ◌==◌, ◌||◌, tst, if◌then◌else◌, ◌>>>◌,
  u32, sub32, and_not, true, false,
}
use emulator_pdp.Instr.Eis.{is_neg}
use emulator_pdp.Fp.Fraction.{
  Fpac, fp_bias, get_exp, f_add, f_get_frac, f_rsh_v, f_lsh_v, f_rsh_1, f_lsh_guard, f_lsh_k,
  f_is_zero, zero_fac, fmask_fac,
}
use emulator_pdp.Fp.Round.{fps_d, Packed, Scaled, round_and_pack}
use emulator_pdp.Fp.Normal.{fp_hidden, shift_up, normalise, coarse_shifts, normal_fuel}

-- n rounds on the upper halves alone, for two fractions with no lower half.
unfoldable pub mul_short : ℕ → ℕ → Fpac → Fpac → Fpac
unfolding f_rsh_1
mul_short zero mpy mpc result = result
mul_short (suc n) mpy mpc result =
    let sum =
      if bit_and mpy 1 == 1 then record { l = result.l; h = u32 (result.h + mpc.h) } else result in
    mul_short n (mpy >>> 1) mpc (f_rsh_1 sum)

-- n rounds on whole fractions, by the bits of one half of the multiplier.
unfoldable pub mul_rounds : ℕ → ℕ → Fpac → Fpac → Fpac
unfolding f_rsh_1 f_add
mul_rounds zero mpy mpc result = result
mul_rounds (suc n) mpy mpc result =
    mul_rounds n (mpy >>> 1) mpc (f_rsh_1 (if bit_and mpy 1 == 1 then f_add mpc result else result))

unfoldable pub frac_mulfp11 : Fpac → Fpac → Fpac
unfolding mul_short mul_rounds f_lsh_k
frac_mulfp11 mpy f2 =
    let mpc = f_lsh_guard f2 in
    if bit_or mpy.l mpc.l == 0
    then mul_short 24 mpy.h mpc zero_fac
    else mul_rounds 24 mpy.h mpc
        (if not (mpy.l == 0) then mul_rounds 32 mpy.l mpc zero_fac else zero_fac)

-- The product is moved up when its leading bit is one place short.
unfoldable pub one_up : Scaled → Scaled
unfolding shift_up
one_up s = if fp_hidden s.frac == 0 then shift_up s else s

-- `fac` with the sign of a product or a quotient.
unfoldable pub with_sign : Fpac → Fpac → Fpac
with_sign fac fsrc = record { l = fac.l; h = bit_xor fac.h fsrc.h }

-- The normalised product of two numbers that are not 0.
unfoldable pub product : Fpac → Fpac → Scaled
unfolding frac_mulfp11 one_up f_get_frac
product fac fsrc = one_up (record {
  frac = frac_mulfp11 (f_get_frac fac) (f_get_frac fsrc);
  exp = sub32 (get_exp fac.h + get_exp fsrc.h) fp_bias;
})

unfoldable pub mulfp11 : Fpac → Fpac → ℕ → ℕ → Packed
unfolding product with_sign round_and_pack
mulfp11 fac fsrc fps fec =
    if get_exp fac.h == 0 || get_exp fsrc.h == 0
    then record { fac = zero_fac; v = 0; fec = fec }
    else (let s = product fac fsrc in round_and_pack (with_sign fac fsrc) s.exp s.frac true fps fec)

-- MOD leaves an integer and a fraction.
pub record Split : Type 0 where
  pub int : Fpac
  pub frac : Fpac
  pub v : ℕ
  pub fec : ℕ

-- The bits of a product below the binary point.
abbrev pub below : Fpac → Fpac → Fpac
below frac fmask = record { l = bit_and frac.l fmask.l; h = bit_and frac.h fmask.h }

abbrev pub above : Fpac → Fpac → Fpac
above frac fmask = record { l = and_not frac.l fmask.l; h = and_not frac.h fmask.h }

-- The fraction of a product, `n` places of which are an integer.
unfoldable pub fraction_part : Fpac → Fpac → ℕ → ℕ → ℕ → Packed
unfolding f_is_zero f_lsh_v coarse_shifts normalise round_and_pack
fraction_part fac low n fps fec =
    if f_is_zero low
    then record { fac = zero_fac; v = 0; fec = fec }
    else (let s =
          normalise normal_fuel (coarse_shifts (record { frac = f_lsh_v low n; exp = fp_bias })) in
        round_and_pack fac s.exp s.frac true fps fec)

-- Case 3 of `modfp11`.
unfoldable pub split_parts : Fpac → Scaled → ℕ → ℕ → Split
unfolding fraction_part f_rsh_v round_and_pack
split_parts fac s fps fec =
    let n = sub32 s.exp fp_bias in
    let fmask = f_rsh_v fmask_fac n in
    let part = fraction_part fac (below s.frac fmask) n fps fec in
    let whole_part = round_and_pack fac s.exp (above s.frac fmask) false fps part.fec in
    record { int = whole_part.fac; frac = part.fac; v = whole_part.v; fec = whole_part.fec }

unfoldable pub modfp11 : Fpac → Fpac → ℕ → ℕ → Split
unfolding product with_sign split_parts round_and_pack
modfp11 fac fsrc fps fec =
    let s = product fac fsrc in
    let signed = with_sign fac fsrc in
    let all_fraction = round_and_pack signed s.exp s.frac true fps fec in
    let all_integer = round_and_pack signed s.exp s.frac false fps fec in
    if get_exp fac.h == 0 || get_exp fsrc.h == 0
    then record { int = zero_fac; frac = zero_fac; v = 0; fec = fec }
    else if is_neg s.exp || leb s.exp fp_bias
    then record {
      int = zero_fac;
      frac = all_fraction.fac;
      v = all_fraction.v;
      fec = all_fraction.fec;
    }
    else if ltb (if tst fps fps_d then fp_bias + 56 else fp_bias + 24) s.exp
    then record { int = all_integer.fac; frac = zero_fac; v = all_integer.v; fec = all_integer.fec }
    else split_parts signed s fps fec
