-- ===== src/Instr/Fp11/Conversion.antt =====
-- src/core/cpu/cpu.c: `op_fp11`, LDCff', STCff', LDEXP, STEXP, LDCif and STCfi.
use emulator_pdp.Prelude.{
  ℕ, ◌+◌, bit_and, bit_or, tst, and_not, not, ltb, leb, ◌==◌, ◌&&◌, if◌then◌else◌, ◌>>>◌, ◌<<<◌,
  u16, u32, u64, sub16, Bool, false,
}
use emulator_pdp.Monad.{M, pure, gets, modify, skip, ◌>>=◌, ◌>>◌}
use emulator_pdp.Access.{cpu_read_word, cpu_write_word}
use emulator_pdp.Stack.{set_r}
use emulator_pdp.Operand.{decode_operand, read_operand, write_operand}
use emulator_pdp.Fp.Round.{fps_d, fps_t, fps_v, fps_z, fps_n}
use emulator_pdp.Fp.Api.{FpResult, pdp11_fp_round}
use emulator_pdp.Fp.Convert.{pdp11_fp_ldcif, stcfi_integer, stcfi_fec}
use emulator_pdp.Instr.Fp11.Operands.{FpOp, decode_fp, write_fp, set_fac}
use emulator_pdp.Instr.Fp11.Codes.{
  fps_iv, fps_iu, fp_exp, fp_setcc, set_fps, put_fps_cc, put_psw_cc, post_if,
}
use emulator_pdp.Instr.Fp11.Arith.{v_code, fp_source, finish_fp}

-- A number that is rounded to single precision when `narrow` says so.
unfoldable pub round_if : Bool → ℕ → ℕ → FpResult
round_if narrow v fps =
    if narrow then pdp11_fp_round v fps else record { value = v; v_out = 0; fec_out = 0 }

-- A number whose exponent is 0 is 0.
unfoldable pub true_zero : ℕ → ℕ
true_zero v = if fp_exp v == 0 then 0 else v

unfoldable pub op_ldcff : ℕ → ℕ → ℕ → ℕ → M (Unit {0})
unfolding round_if true_zero finish_fp
op_ldcff ac spec olen entry_pc = do
  v ← fp_source spec olen
  out ← gets (λ c. round_if (not (tst c.fps (bit_or fps_d fps_t))) (true_zero v) c.fps)
  finish_fp ac entry_pc out

-- What STCff' stores.
unfoldable pub stcff_result : ℕ → ℕ → FpResult
unfolding round_if true_zero
stcff_result v fps =
    let cut = if tst fps fps_d then v else bit_and v 0xffff_ffff_0000_0000 in
    round_if (bit_and fps (bit_or fps_d fps_t) == fps_d) (true_zero cut) fps

unfoldable pub op_stcff : ℕ → ℕ → ℕ → ℕ → M (Unit {0})
unfolding stcff_result fp_setcc post_if
op_stcff ac spec olen entry_pc = do
  out ← gets (λ c. stcff_result (c.fac ac) c.fps)
  o ← decode_fp spec olen
  write_fp o olen out.value
  modify (λ c. set_fps (fp_setcc c.fps out.value (v_code out.v_out)) c)
  post_if out.fec_out entry_pc

-- The number with its exponent replaced by that of an integer.
unfoldable pub with_exp : ℕ → ℕ → ℕ
with_exp fac dst =
    let h = bit_or (and_not (u32 (fac >>> 32)) 0x7f80_0000) (bit_and (dst + 0o200) 0o377 <<< 23) in
    bit_or (u64 (h <<< 32)) (bit_and fac 0xffff_ffff)

-- What LDEXP loads; an exponent out of range is an overflow or an underflow.
unfoldable pub ldexp_result : ℕ → ℕ → ℕ → FpResult
unfolding with_exp
ldexp_result fac dst fps =
    let v = with_exp fac dst in
    if ltb 0o177 dst && leb dst 0o177600
    then if ltb dst 0o100000
      then (if tst fps fps_iv
          then record { value = v; v_out = fps_v; fec_out = 8 }
          else record { value = 0; v_out = fps_v; fec_out = 0 })
      else (if tst fps fps_iu
          then record { value = v; v_out = 0; fec_out = 10 }
          else record { value = 0; v_out = 0; fec_out = 0 })
    else record { value = v; v_out = 0; fec_out = 0 }

unfoldable pub op_ldexp : ℕ → ℕ → ℕ → M (Unit {0})
unfolding ldexp_result finish_fp
op_ldexp ac spec entry_pc = do
  s ← decode_operand spec false
  dst ← read_operand s false
  out ← gets (λ c. ldexp_result (c.fac ac) dst c.fps)
  finish_fp ac entry_pc out

unfoldable pub stexp_value : ℕ → ℕ
stexp_value v = sub16 (fp_exp v) 0o200

abbrev n_and_z : Bool → Bool → ℕ
n_and_z n z = bit_or (if n then fps_n else 0) (if z then fps_z else 0)

unfoldable pub op_stexp : ℕ → ℕ → M (Unit {0})
unfolding stexp_value
op_stexp ac spec = do
  dst ← gets (λ c. stexp_value (c.fac ac))
  let cc = n_and_z (tst dst 0o100000) (dst == 0)
  modify (λ c. put_psw_cc cc (put_fps_cc cc c))
  d ← decode_operand spec false
  write_operand d false dst

-- The integer that LDCif reads, at the top of 32 bits.
unfoldable pub read_integer : FpOp → ℕ → M ℕ
read_integer o ilen =
    if o.is_reg then gets (λ c. c.r o.reg <<< 16) else if o.imm then pure (o.immw <<< 16) else (do
      hi ← cpu_read_word o.addr
      lo ← if ilen == 2 then cpu_read_word (u16 (o.addr + 2)) else pure 0
      pure (bit_or (hi <<< 16) lo))

unfoldable pub op_ldcif : ℕ → ℕ → ℕ → M (Unit {0})
unfolding read_integer fp_setcc
op_ldcif ac spec ilen = do
  o ← decode_fp spec ilen
  ival ← read_integer o ilen
  v ← gets (λ c. pdp11_fp_ldcif ival c.fps)
  modify (λ c. set_fps (fp_setcc c.fps v 0) (set_fac ac v c))

unfoldable pub write_integer : FpOp → ℕ → ℕ → M (Unit {0})
write_integer o ilen dst =
    let hi = u16 (bit_and (dst >>> 16) 0o177777) in
    if o.is_reg then modify (set_r o.reg hi) else (do
      cpu_write_word o.addr hi
      if ilen == 2 then cpu_write_word (u16 (o.addr + 2)) (u16 (bit_and dst 0o177777)) else skip)

unfoldable pub stcfi_cc : ℕ → Bool → ℕ
stcfi_cc dst carry = bit_or (n_and_z (tst dst 0x8000_0000) (dst == 0)) (if carry then 1 else 0)

unfoldable pub op_stcfi : ℕ → ℕ → ℕ → ℕ → M (Unit {0})
unfolding stcfi_cc write_integer post_if
op_stcfi ac spec ilen entry_pc = do
  out ← gets (λ c. stcfi_integer (c.fac ac) c.fps)
  fec ← gets (λ c. stcfi_fec c.fps out.c)
  let cc = stcfi_cc out.dst out.c
  modify (λ c. put_psw_cc cc (put_fps_cc cc c))
  o ← decode_fp spec ilen
  write_integer o ilen out.dst
  post_if fec entry_pc
