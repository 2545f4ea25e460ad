-- ===== src/Instr/Fp11/Arith.antt =====
-- src/core/cpu/cpu.c: `op_fp11`, loads and stores (005, 010), ADD, SUB, MUL, DIV, MOD and CMP.
use emulator_pdp.Prelude.{ℕ, bit_or, bit_xor, not, ◌==◌, if◌then◌else◌}
use emulator_pdp.State.{Cpu}
use emulator_pdp.Monad.{M, gets, modify, skip, ◌>>=◌, ◌>>◌}
use emulator_pdp.Fp.Round.{fps_v}
use emulator_pdp.Fp.Api.{FpResult, pdp11_fp_add, pdp11_fp_div, pdp11_fp_mod}
use emulator_pdp.Fp.Convert.{pdp11_fp_cmp}
use emulator_pdp.Instr.Fp11.Operands.{decode_fp, read_fp, write_fp, set_fac}
use emulator_pdp.Instr.Fp11.Codes.{
  fp_signbit, fp_exp, fp_setcc, set_fps, put_fps_cc, post_fpe, post_if,
}

-- `(uint16_t)(vflag ? FPS_V : 0)`.
abbrev pub v_code : ℕ → ℕ
v_code v = if v == 0 then 0 else fps_v

-- A result is stored, and its codes.
unfoldable pub store_result : ℕ → FpResult → Cpu → Cpu
unfolding fp_setcc
store_result ac out c =
    set_fps (fp_setcc c.fps out.value (v_code out.v_out)) (set_fac ac out.value c)

unfoldable pub finish_fp : ℕ → ℕ → FpResult → M (Unit {0})
unfolding store_result post_if
finish_fp ac entry_pc out = do modify (store_result ac out); post_if out.fec_out entry_pc

-- The source operand of an instruction.
abbrev pub fp_source : ℕ → ℕ → M ℕ
fp_source spec len = do o ← decode_fp spec len; read_fp o len

unfoldable pub op_ldf : ℕ → ℕ → ℕ → M (Unit {0})
unfolding fp_setcc
op_ldf ac spec len = do
  v ← fp_source spec len
  modify (λ c. set_fps (fp_setcc c.fps v 0) (set_fac ac v c))

unfoldable pub op_stf : ℕ → ℕ → ℕ → M (Unit {0})
op_stf ac spec len = do o ← decode_fp spec len; v ← gets (λ c. c.fac ac); write_fp o len v

-- SUB negates its source, unless that is 0.
unfoldable pub sub_source : ℕ → ℕ
sub_source fsrc = if not (fp_exp fsrc == 0) then bit_xor fsrc fp_signbit else fsrc

-- ADD, SUB and MUL, by their results.
unfoldable pub op_fp_binary : (ℕ → ℕ → ℕ → FpResult) → ℕ → ℕ → ℕ → ℕ → M (Unit {0})
unfolding finish_fp
op_fp_binary f ac spec len entry_pc = do
  fsrc ← fp_source spec len
  out ← gets (λ c. f (c.fac ac) fsrc c.fps)
  finish_fp ac entry_pc out

unfoldable pub fp_sub : ℕ → ℕ → ℕ → FpResult
unfolding sub_source
fp_sub fac fsrc fps = pdp11_fp_add fac (sub_source fsrc) fps

unfoldable pub op_divf : ℕ → ℕ → ℕ → ℕ → M (Unit {0})
unfolding finish_fp post_fpe
op_divf ac spec len entry_pc = do
  fsrc ← fp_source spec len
  if fp_exp fsrc == 0
      then post_fpe 4 entry_pc
      else (do out ← gets (λ c. pdp11_fp_div (c.fac ac) fsrc c.fps); finish_fp ac entry_pc out)

unfoldable pub op_modf : ℕ → ℕ → ℕ → ℕ → M (Unit {0})
unfolding finish_fp
op_modf ac spec len entry_pc = do
  fsrc ← fp_source spec len
  out ← gets (λ c. pdp11_fp_mod (c.fac ac) fsrc c.fps)
  modify (set_fac (bit_or ac 1) out.int_out)
  finish_fp ac entry_pc out.fraction

unfoldable pub op_cmpf : ℕ → ℕ → ℕ → M (Unit {0})
op_cmpf ac spec len = do
  fsrc ← fp_source spec len
  out ← gets (λ c. pdp11_fp_cmp (c.fac ac) fsrc c.fps)
  modify (put_fps_cc out.cc)
  if out.zero_ac then modify (set_fac ac 0) else skip
