-- ===== src/Fp/Fraction.antt =====
-- src/core/fp/fp.c: `fpac_t` and the macros on its two halves. Every half is within 32 bits.
pub mod Whole
pub mod Shifts
use emulator_pdp.Prelude.{
  ℕ, ◌+◌, ◌-◌, ◌*◌, ◌^◌, bit_and, bit_or, ltb, leb, ◌==◌, ◌&&◌, ◌||◌, if◌then◌else◌, ◌>>>◌, ◌<<<◌,
  u32, sub32, bool_to_ℕ, Bool, and_not,
}

pub record Fpac : Type 0 where
  pub l : ℕ
  pub h : ℕ

-- The 64-bit number that the halves stand for.
abbrev pub whole : Fpac → ℕ
whole f = f.h * 2 ^ 32 + f.l

abbrev pub fp_sign : ℕ
fp_sign = 0x8000_0000

abbrev pub fp_frach : ℕ
fp_frach = 0x7f_ffff

abbrev pub fp_hb : ℕ
fp_hb = 0x80_0000

abbrev pub fp_bias : ℕ
fp_bias = 0o200

abbrev pub get_exp : ℕ → ℕ
get_exp h = bit_and (h >>> 23) 0o377

abbrev pub get_sign : ℕ → ℕ
get_sign h = bit_and (h >>> 31) 1

abbrev pub get_bit : ℕ → ℕ → ℕ
get_bit x n = bit_and (x >>> n) 1

abbrev pub and_mask : ℕ → ℕ
and_mask n = 2 ^ n - 1

unfoldable pub f_add : Fpac → Fpac → Fpac
f_add s2 s1 =
    let l = u32 (s1.l + s2.l) in record { l = l; h = u32 (s1.h + s2.h + bool_to_ℕ (ltb l s2.l)) }

unfoldable pub f_sub : Fpac → Fpac → Fpac
f_sub s2 s1 = record {
  h = sub32 (sub32 s1.h s2.h) (bool_to_ℕ (ltb s1.l s2.l));
  l = sub32 s1.l s2.l;
}

unfoldable pub f_lt : Fpac → Fpac → Bool
f_lt x y = ltb x.h y.h || (x.h == y.h && ltb x.l y.l)

unfoldable pub f_lt_ap : Fpac → Fpac → Bool
f_lt_ap x y =
    ltb (and_not x.h fp_sign) (and_not y.h fp_sign)
    || (and_not x.h fp_sign == and_not y.h fp_sign && ltb x.l y.l)

unfoldable pub f_get_frac : Fpac → Fpac
f_get_frac sr = record { l = sr.l; h = bit_or (bit_and sr.h fp_frach) fp_hb }

-- For n from 1 to 63.
unfoldable pub f_rsh_v : Fpac → ℕ → Fpac
f_rsh_v sr n = record {
  l = u32 (
      if leb 32 n
      then bit_and (sr.h >>> (n - 32)) (and_mask (64 - n))
      else bit_or (bit_and (sr.l >>> n) (and_mask (32 - n))) (u32 (sr.h <<< (32 - n))));
  h = if leb 32 n then 0 else bit_and (sr.h >>> n) (and_mask (32 - n));
}

-- For n from 1 to 63.
unfoldable pub f_lsh_v : Fpac → ℕ → Fpac
f_lsh_v sr n = record {
  h = u32 (
      if leb 32 n
      then sr.l <<< (n - 32)
      else bit_or (u32 (sr.h <<< n)) (bit_and (sr.l >>> (32 - n)) (and_mask n)));
  l = if leb 32 n then 0 else u32 (sr.l <<< n);
}

unfoldable pub f_lsh_1 : Fpac → Fpac
f_lsh_1 ds = record {
  h = u32 (bit_or (u32 (ds.h <<< 1)) (bit_and (ds.l >>> 31) 1));
  l = u32 (ds.l <<< 1);
}

unfoldable pub f_rsh_1 : Fpac → Fpac
f_rsh_1 ds = record {
  l = bit_or (bit_and (ds.l >>> 1) 0x7fff_ffff) (bit_and ds.h 1 <<< 31);
  h = bit_and (ds.h >>> 1) 0x7fff_ffff;
}

-- For n from 1 to 31.
unfoldable pub f_lsh_k : ℕ → Fpac → Fpac
f_lsh_k n sr = record {
  h = u32 (bit_or (u32 (sr.h <<< n)) (bit_and (sr.l >>> (32 - n)) (and_mask n)));
  l = u32 (sr.l <<< n);
}

-- For n from 1 to 31.
unfoldable pub f_rsh_k : ℕ → Fpac → Fpac
f_rsh_k n sr = record {
  l = u32 (bit_or (bit_and (sr.l >>> n) (and_mask (32 - n))) (u32 (sr.h <<< (32 - n))));
  h = bit_and (sr.h >>> n) (and_mask (32 - n));
}

-- The shifts by `FP_GUARD`.
abbrev pub f_lsh_guard : Fpac → Fpac
f_lsh_guard ds = f_lsh_k 3 ds

abbrev pub f_rsh_guard : Fpac → Fpac
f_rsh_guard ds = f_rsh_k 3 ds

abbrev pub zero_fac : Fpac
zero_fac = record { l = 0; h = 0 }

abbrev pub fround_fac : Fpac
fround_fac = record { l = 0x8000_0000; h = 0 }

abbrev pub fround_guard_fac : Fpac
fround_guard_fac = record { l = 0; h = 4 }

abbrev pub dround_guard_fac : Fpac
dround_guard_fac = record { l = 4; h = 0 }

abbrev pub fmask_fac : Fpac
fmask_fac = record { l = 0xffff_ffff; h = 0x7ff_ffff }

-- `(f.h | f.l) == 0`.
unfoldable pub f_is_zero : Fpac → Bool
f_is_zero f = bit_or f.h f.l == 0
