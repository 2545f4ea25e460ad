-- ===== src/Fp/Api.antt =====
-- src/core/fp/fp.c: the public arithmetic, on packed numbers of 64 bits.
pub mod Commute
use emulator_pdp.Prelude.{ℕ, ◌>>>◌, u32}
use emulator_pdp.Fp.Round.{Packed, to_fac, from_fac, roundfp11}
use emulator_pdp.Fp.Add.{addfp11}
use emulator_pdp.Fp.Mul.{mulfp11, modfp11}
use emulator_pdp.Fp.Div.{divfp11}

-- The packed result, `*v_out` and `*fec_out`.
pub record FpResult : Type 0 where
  pub value : ℕ
  pub v_out : ℕ
  pub fec_out : ℕ

unfoldable pub packed_result : Packed → FpResult
unfolding from_fac
packed_result p = record { value = from_fac p.fac; v_out = p.v; fec_out = p.fec }

unfoldable pub pdp11_fp_add : ℕ → ℕ → ℕ → FpResult
unfolding packed_result to_fac addfp11
pdp11_fp_add fac_v fsrc_v fps = packed_result (addfp11 (to_fac fac_v fps) (to_fac fsrc_v fps) fps 0)

unfoldable pub pdp11_fp_mul : ℕ → ℕ → ℕ → FpResult
unfolding packed_result to_fac mulfp11
pdp11_fp_mul fac_v fsrc_v fps = packed_result (mulfp11 (to_fac fac_v fps) (to_fac fsrc_v fps) fps 0)

unfoldable pub pdp11_fp_div : ℕ → ℕ → ℕ → FpResult
unfolding packed_result to_fac divfp11
pdp11_fp_div fac_v fsrc_v fps = packed_result (divfp11 (to_fac fac_v fps) (to_fac fsrc_v fps) fps 0)

-- The fraction and the integer of MOD.
pub record FpSplit : Type 0 where
  pub fraction : FpResult
  pub int_out : ℕ

unfoldable pub pdp11_fp_mod : ℕ → ℕ → ℕ → FpSplit
unfolding to_fac modfp11 from_fac
pdp11_fp_mod fac_v fsrc_v fps =
    let s = modfp11 (to_fac fac_v fps) (to_fac fsrc_v fps) fps 0 in
    record {
      fraction = record { value = from_fac s.frac; v_out = s.v; fec_out = s.fec };
      int_out = from_fac s.int;
    }

unfoldable pub pdp11_fp_round : ℕ → ℕ → FpResult
unfolding packed_result roundfp11
pdp11_fp_round val fps =
    packed_result (roundfp11 (record { l = u32 val; h = u32 (val >>> 32) }) fps 0)
