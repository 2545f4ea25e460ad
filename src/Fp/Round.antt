-- ===== src/Fp/Round.antt =====
-- src/core/fp/fp.c: the codes, the suppression of exceptions, rounding and packing. An `int32_t`
-- exponent is given by its 32 bits.
use emulator_pdp.Prelude.{
  ℕ, ◌+◌, bit_and, bit_or, bit_xor, not, ltb, leb, ◌==◌, ◌&&◌, ◌||◌, tst, if◌then◌else◌, ◌>>>◌,
  ◌<<<◌, u32, u64, Bool,
}
use emulator_pdp.Instr.Eis.{is_neg}
use emulator_pdp.Fp.Fraction.{
  Fpac, fp_sign, fp_frach, get_bit, get_sign, f_add, f_rsh_1, f_rsh_guard, f_rsh_k, zero_fac,
  fround_fac, fround_guard_fac, dround_guard_fac,
}

abbrev pub fps_v : ℕ
fps_v = 0o2

abbrev pub fps_z : ℕ
fps_z = 0o4

abbrev pub fps_n : ℕ
fps_n = 0o10

abbrev pub fps_t : ℕ
fps_t = 0o40

abbrev pub fps_l : ℕ
fps_l = 0o100

abbrev pub fps_d : ℕ
fps_d = 0o200

abbrev pub fec_icvt : ℕ
fec_icvt = 6

abbrev pub fec_ovflo : ℕ
fec_ovflo = 8

abbrev pub fec_unflo : ℕ
fec_unflo = 10

abbrev pub fec_undfv : ℕ
fec_undfv = 12

-- `to_fac`: a single-precision operand has no low half.
unfoldable pub to_fac : ℕ → ℕ → Fpac
to_fac v fps = record { l = if tst fps fps_d then u32 v else 0; h = u32 (v >>> 32) }

unfoldable pub from_fac : Fpac → ℕ
from_fac f = bit_or (u64 (f.h <<< 32)) f.l

-- The enable bit of an exception code.
abbrev pub test_code : ℕ → ℕ
test_code i =
    if i == 3
    then 0o400
    else if i == 4
    then 0o1000
    else if i == 5
    then 0o2000
    else if i == 6
    then 0o4000
    else 0

-- What `fp_notrap` returns.
unfoldable pub fp_notrap : ℕ → ℕ → Bool
fp_notrap fps code =
    leb fec_icvt code && leb code fec_undfv && not (tst fps (test_code (code >>> 1)))

-- What `fp_notrap` leaves in `*fec_out`.
unfoldable pub fec_after : ℕ → ℕ → ℕ → ℕ
unfolding fp_notrap
fec_after fps code fec = if fp_notrap fps code then fec else code

-- A result with its V condition and the code in `*fec_out`.
pub record Packed : Type 0 where
  pub fac : Fpac
  pub v : ℕ
  pub fec : ℕ

-- A fraction under normalisation, with its exponent.
pub record Scaled : Type 0 where
  pub frac : Fpac
  pub exp : ℕ

-- The exponent is above 0377.
abbrev pub overflows : ℕ → Bool
overflows exp = not (is_neg exp) && ltb 0o377 exp

-- The exponent is 0 or negative.
abbrev pub underflows : ℕ → Bool
underflows exp = is_neg exp || exp == 0

-- A carry out of the fraction moves it down by one place.
unfoldable pub carry_down : Fpac → ℕ → Scaled
unfolding f_rsh_1
carry_down frac exp =
    if get_bit frac.h 27 == 1
    then record { frac = f_rsh_1 frac; exp = u32 (exp + 1) }
    else record { frac = frac; exp = exp }

unfoldable pub round_frac : Bool → ℕ → Fpac → ℕ → Scaled
unfolding carry_down f_add
round_frac r fps frac exp =
    if r && not (tst fps fps_t)
    then carry_down (f_add (if tst fps fps_d then dround_guard_fac else fround_guard_fac) frac) exp
    else record { frac = frac; exp = exp }

-- The sign of `fac`, the exponent and the fraction, put together.
unfoldable pub pack : Fpac → Scaled → Fpac
unfolding f_rsh_k
pack fac s =
    let frac = f_rsh_guard s.frac in
    record {
      l = frac.l;
      h =
          bit_or (bit_or (bit_and fac.h fp_sign) (u32 (bit_and s.exp 0o377 <<< 23)))
            (bit_and frac.h fp_frach);
    }

-- The end of `round_and_pack`: the exponent is checked.
unfoldable pub check_exp : Fpac → ℕ → ℕ → ℕ → Packed
unfolding fp_notrap fec_after
check_exp fac exp fps fec =
    if overflows exp
    then record {
      fac = if fp_notrap fps fec_ovflo then zero_fac else fac;
      v = fps_v;
      fec = fec_after fps fec_ovflo fec;
    }
    else if underflows exp
    then record {
      fac = if fp_notrap fps fec_unflo then zero_fac else fac;
      v = 0;
      fec = fec_after fps fec_unflo fec;
    }
    else record { fac = fac; v = 0; fec = fec }

unfoldable pub round_and_pack : Fpac → ℕ → Fpac → Bool → ℕ → ℕ → Packed
unfolding round_frac pack check_exp
round_and_pack fac exp frac r fps fec =
    let s = round_frac r fps frac exp in check_exp (pack fac s) s.exp fps fec

unfoldable pub roundfp11 : Fpac → ℕ → ℕ → Packed
unfolding f_add fp_notrap fec_after
roundfp11 f fps fec =
    let outf = f_add fround_fac f in
    if get_sign (bit_xor outf.h f.h) == 1
    then record {
      fac =
          if fp_notrap fps fec_ovflo
          then zero_fac
          else record { l = outf.l; h = bit_xor outf.h fp_sign };
      v = fps_v;
      fec = fec_after fps fec_ovflo fec;
    }
    else record { fac = outf; v = 0; fec = fec }
