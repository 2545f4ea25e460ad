-- ===== src/Fp/Convert.antt =====
-- src/core/fp/fp.c: comparison and the conversions.
pub mod Ends
pub mod RoundTrip
use emulator_pdp.Prelude.{
  ℕ, zero, suc, ◌+◌, ◌-◌, bit_and, bit_or, bit_xor, not, ltb, leb, ◌==◌, ◌&&◌, tst, if◌then◌else◌,
  ◌>>>◌, ◌<<<◌, u32, and_not, Bool, true, false,
}
use emulator_pdp.Instr.Eis.{neg32}
use emulator_pdp.Fp.Fraction.{
  Fpac, fp_bias, fp_frach, fp_hb, get_exp, get_sign, f_lt, f_rsh_v, f_is_zero, zero_fac,
}
use emulator_pdp.Fp.Round.{
  fps_z, fps_n, fps_d, fps_t, fps_l, fec_icvt, to_fac, from_fac, fec_after, roundfp11,
}

-- An operand of a comparison, which is 0 when its exponent is.
unfoldable pub clean : Fpac → Fpac
clean f = if get_exp f.h == 0 then zero_fac else f

-- The codes of two operands that differ.
unfoldable pub unequal_codes : Fpac → Fpac → ℕ
unfolding f_lt
unequal_codes fac fsrc =
    let cc = bit_and (fsrc.h >>> 28) fps_n in
    if get_sign (bit_xor fsrc.h fac.h) == 0 && not (fac.h == 0) && f_lt fsrc fac
    then bit_xor cc fps_n
    else cc

pub record Compared : Type 0 where
  pub cc : ℕ
  pub zero_ac : Bool

unfoldable pub compare_facs : Fpac → Fpac → Compared
unfolding unequal_codes f_is_zero
compare_facs fac fsrc =
    if fsrc.h == fac.h && fsrc.l == fac.l
    then record { cc = fps_z; zero_ac = f_is_zero fsrc }
    else record { cc = unequal_codes fac fsrc; zero_ac = false }

unfoldable pub pdp11_fp_cmp : ℕ → ℕ → ℕ → Compared
unfolding to_fac clean compare_facs
pdp11_fp_cmp fac_v fsrc_v fps = compare_facs (clean (to_fac fac_v fps)) (clean (to_fac fsrc_v fps))

-- The integer moved up until its bit 31 is set, and by how many places.
pub record Placed : Type 0 where
  pub bits : ℕ
  pub i : ℕ

-- `for (i = 0; GET_SIGN_L(fac.l) == 0; i++)`, on fuel: a number of 32 bits needs at most 31 rounds.
unfoldable pub place : ℕ → ℕ → ℕ → Placed
place zero bits i = record { bits = bits; i = i }
place (suc fuel) bits i =
    let rest = place fuel (u32 (bits <<< 1)) (i + 1) in
    if get_sign bits == 0 then rest else record { bits = bits; i = i }

abbrev pub place_fuel : ℕ
place_fuel = 32

-- The packed number of a placed integer, not rounded.
unfoldable pub ldcif_pack : ℕ → Placed → ℕ → Fpac
ldcif_pack sign p fps =
    let exp = (if tst fps fps_l then fp_bias + 32 else fp_bias + 16) - p.i in
    record {
      l = u32 (p.bits <<< 24);
      h = bit_or (bit_or (u32 (sign <<< 31)) (u32 (exp <<< 23))) (bit_and (p.bits >>> 8) fp_frach);
    }

unfoldable pub pdp11_fp_ldcif : ℕ → ℕ → ℕ
unfolding place ldcif_pack roundfp11 from_fac
pdp11_fp_ldcif facl fps =
    let sign = get_sign facl in
    let p = place place_fuel (if sign == 0 then facl else u32 (bit_xor facl 0xffff_ffff + 1)) 0 in
    let fac = ldcif_pack sign p fps in
    if facl == 0
    then 0
    else if not (tst fps (bit_or fps_d fps_t))
    then from_fac ((roundfp11 fac fps 0).fac)
    else from_fac fac

-- The least magnitude that does not fit: `i_limit[is_long][sign]`.
unfoldable pub i_limit : Bool → Bool → ℕ
i_limit is_long sign = if sign then (if is_long then 0x8000_0001 else 0x8001_0000) else 0x8000_0000

-- The integer with its C flag.
pub record Integer : Type 0 where
  pub dst : ℕ
  pub c : Bool

-- The magnitude at its place, cut to a word when the integer is one.
unfoldable pub stcfi_magnitude : Fpac → ℕ → Bool → ℕ
unfolding f_rsh_v
stcfi_magnitude fac n is_long =
    let shifted = (f_rsh_v fac n).l in if is_long then shifted else and_not shifted 0o177777

-- The fraction with its hidden bit.
unfoldable pub stcfi_fraction : ℕ → ℕ → Fpac
stcfi_fraction val fps = record {
  l = if tst fps fps_d then u32 val else 0;
  h = bit_or (bit_and (u32 (val >>> 32)) fp_frach) fp_hb;
}

unfoldable pub stcfi_integer : ℕ → ℕ → Integer
unfolding stcfi_magnitude i_limit stcfi_fraction
stcfi_integer val fps =
    let h = u32 (val >>> 32) in
    let sign = get_sign h == 1 in
    let exp = get_exp h in
    let is_long = tst fps fps_l in
    let limit_exp = if is_long then fp_bias + 32 else fp_bias + 16 in
    let dst = stcfi_magnitude (stcfi_fraction val fps) (24 + limit_exp - exp) is_long in
    if leb exp fp_bias
    then record { dst = 0; c = false }
    else if ltb limit_exp exp
    then record { dst = 0; c = true }
    else if leb (i_limit is_long sign) dst
    then record { dst = 0; c = true }
    else record { dst = if sign then neg32 dst else dst; c = false }

-- `*fec_out` of `pdp11_fp_stcfi`.
unfoldable pub stcfi_fec : ℕ → Bool → ℕ
unfolding fec_after
stcfi_fec fps c = if c then fec_after fps fec_icvt 0 else 0
