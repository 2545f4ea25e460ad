-- ===== src/Fp/Add.antt =====
-- src/core/fp/fp.c: `addfp11`.
pub mod Swap
use emulator_pdp.Prelude.{ℕ, not, leb, ◌==◌, ◌&&◌, ◌||◌, if◌then◌else◌, sub32, true}
use emulator_pdp.Instr.Eis.{is_neg}
use emulator_pdp.Fp.Fraction.{
  Fpac, get_exp, get_sign, f_add, f_sub, f_lt_ap, f_get_frac, f_rsh_v, f_lsh_guard, f_lsh_k,
  f_is_zero, zero_fac,
}
use emulator_pdp.Fp.Round.{Packed, Scaled, round_and_pack, carry_down}
use emulator_pdp.Fp.Normal.{normalise, coarse_shifts, normal_fuel}

-- The fraction with the guard bits.
unfoldable pub guarded : Fpac → Fpac
unfolding f_get_frac f_lsh_k
guarded f = f_lsh_guard (f_get_frac f)

-- `F_RSH_V`, which is left out when the exponents agree.
unfoldable pub align : Fpac → ℕ → Fpac
unfolding f_rsh_v
align frac ediff = if ediff == 0 then frac else f_rsh_v frac ediff

-- The difference of the fractions, which is not 0, brought to normal form.
unfoldable pub renormalise : ℕ → Scaled → Scaled
unfolding normalise coarse_shifts
renormalise ediff s =
    normalise normal_fuel (if is_neg ediff || leb ediff 1 then coarse_shifts s else s)

unfoldable pub sub_magnitudes : Fpac → Fpac → ℕ → ℕ → ℕ → ℕ → Packed
unfolding guarded align renormalise f_sub f_is_zero round_and_pack
sub_magnitudes fac fsrc facexp ediff fps fec =
    let facfrac = f_sub (align (guarded fsrc) ediff) (guarded fac) in
    if f_is_zero facfrac
    then record { fac = zero_fac; v = 0; fec = fec }
    else (let s = renormalise ediff (record { frac = facfrac; exp = facexp }) in
        round_and_pack fac s.exp s.frac true fps fec)

unfoldable pub add_magnitudes : Fpac → Fpac → ℕ → ℕ → ℕ → ℕ → Packed
unfolding guarded align f_add carry_down round_and_pack
add_magnitudes fac fsrc facexp ediff fps fec =
    let s = carry_down (f_add (align (guarded fsrc) ediff) (guarded fac)) facexp in
    round_and_pack fac s.exp s.frac true fps fec

-- The sum, when `fsrc` is not the larger in magnitude.
unfoldable pub add_ordered : Fpac → Fpac → ℕ → ℕ → Packed
unfolding sub_magnitudes add_magnitudes
add_ordered fac fsrc fps fec =
    let facexp = get_exp fac.h in
    let fsrcexp = get_exp fsrc.h in
    let ediff = sub32 facexp fsrcexp in
    if facexp == 0
    then record { fac = if fsrcexp == 0 then zero_fac else fsrc; v = 0; fec = fec }
    else if fsrcexp == 0
    then record { fac = fac; v = 0; fec = fec }
    else if not (is_neg ediff) && leb 60 ediff
    then record { fac = fac; v = 0; fec = fec }
    else if not (get_sign fac.h == get_sign fsrc.h)
    then sub_magnitudes fac fsrc facexp ediff fps fec
    else add_magnitudes fac fsrc facexp ediff fps fec

unfoldable pub addfp11 : Fpac → Fpac → ℕ → ℕ → Packed
unfolding add_ordered f_lt_ap
addfp11 fac fsrc fps fec =
    if f_lt_ap fac fsrc then add_ordered fsrc fac fps fec else add_ordered fac fsrc fps fec
