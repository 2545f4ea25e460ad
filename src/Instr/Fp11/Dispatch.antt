-- ===== src/Instr/Fp11/Dispatch.antt =====
-- src/core/cpu/cpu.c: `op_fp11`.
use emulator_pdp.Prelude.{ℕ, bit_and, tst, ◌==◌, if◌then◌else◌, ◌>>>◌, Bool}
use emulator_pdp.State.{Cpu}
use emulator_pdp.Monad.{M, get, modify, ◌>>=◌, ◌>>◌}
use emulator_pdp.Fp.Round.{fps_d, fps_l}
use emulator_pdp.Fp.Api.{pdp11_fp_add, pdp11_fp_mul}
use emulator_pdp.Instr.Fp11.Codes.{fp_exec_ns}
use emulator_pdp.Instr.Fp11.Control.{op_fp_control, op_fp_single}
use emulator_pdp.Instr.Fp11.Arith.{op_ldf, op_stf, op_fp_binary, fp_sub, op_divf, op_modf, op_cmpf}
use emulator_pdp.Instr.Fp11.Conversion.{op_ldcff, op_stcff, op_ldexp, op_stexp, op_ldcif, op_stcfi}

abbrev set_fp_ns : ℕ → ℕ → Cpu → Cpu
set_fp_ns major subop c = record c { eis_extra_ns = fp_exec_ns major subop (tst c.fps fps_d) }

-- The instruction, by its major opcode. The lengths are in words.
unfoldable pub fp11_major : ℕ → ℕ → Bool → Bool → ℕ → M (Unit {0})
fp11_major major word dbl long entry_pc =
    let ac = bit_and (word >>> 6) 0o3 in
    let spec = bit_and word 0o77 in
    let len = if dbl then 4 else 2 in
    let olen = if dbl then 2 else 4 in
    let ilen = if long then 2 else 1 in
    if major == 0o0
    then op_fp_control word
    else if major == 0o1
    then op_fp_single word len
    else if major == 0o2
    then op_fp_binary pdp11_fp_mul ac spec len entry_pc
    else if major == 0o3
    then op_modf ac spec len entry_pc
    else if major == 0o4
    then op_fp_binary pdp11_fp_add ac spec len entry_pc
    else if major == 0o5
    then op_ldf ac spec len
    else if major == 0o6
    then op_fp_binary fp_sub ac spec len entry_pc
    else if major == 0o7
    then op_cmpf ac spec len
    else if major == 0o10
    then op_stf ac spec len
    else if major == 0o11
    then op_divf ac spec len entry_pc
    else if major == 0o12
    then op_stexp ac spec
    else if major == 0o13
    then op_stcfi ac spec ilen entry_pc
    else if major == 0o14
    then op_stcff ac spec olen entry_pc
    else if major == 0o15
    then op_ldexp ac spec entry_pc
    else if major == 0o16
    then op_ldcif ac spec ilen
    else op_ldcff ac spec olen entry_pc

unfoldable pub op_fp11 : ℕ → M (Unit {0})
unfolding fp11_major
op_fp11 word = do
  let major = bit_and (word >>> 8) 0o17
  modify (set_fp_ns major (bit_and (word >>> 6) 0o3))
  c ← get
  fp11_major major word (tst c.fps fps_d) (tst c.fps fps_l) (c.r 7)
