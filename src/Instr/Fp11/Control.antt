-- ===== src/Instr/Fp11/Control.antt =====
-- src/core/cpu/cpu.c: `op_fp11`, the control group (major 000) and CLR, TST, ABS and NEG (001).
use emulator_pdp.Prelude.{
  ℕ, ◌+◌, bit_and, bit_or, bit_xor, and_not, ◌==◌, if◌then◌else◌, ◌>>>◌, u16, false,
}
use emulator_pdp.State.{Cpu}
use emulator_pdp.Monad.{M, get, gets, modify, ◌>>=◌, ◌>>◌}
use emulator_pdp.Access.{cpu_write_word}
use emulator_pdp.Stack.{set_r}
use emulator_pdp.Operand.{decode_operand, read_operand, write_operand}
use emulator_pdp.Fp.Round.{fps_d, fps_l, fps_z}
use emulator_pdp.Instr.Fp11.Operands.{decode_fp, read_fp, write_fp}
use emulator_pdp.Instr.Fp11.Codes.{
  fps_cc, fps_rw, fp_signbit, fp_exp, fp_setcc, set_fps, put_fps_cc,
}

-- CFCC, SETF, SETI, SETD and SETL.
unfoldable pub fp_special : ℕ → Cpu → Cpu
fp_special word c =
    if word == 0o170000
    then record c { psw = u16 (bit_or (and_not c.psw 0o17) (bit_and c.fps fps_cc)) }
    else if word == 0o170001
    then set_fps (and_not c.fps fps_d) c
    else if word == 0o170002
    then set_fps (and_not c.fps fps_l) c
    else if word == 0o170011
    then set_fps (bit_or c.fps fps_d) c
    else if word == 0o170012
    then set_fps (bit_or c.fps fps_l) c
    else c

unfoldable pub op_ldfps : ℕ → M (Unit {0})
op_ldfps spec = do
  s ← decode_operand spec false
  value ← read_operand s false
  modify (set_fps (bit_and value fps_rw))

unfoldable pub op_stfps : ℕ → M (Unit {0})
op_stfps spec = do
  modify (λ c. set_fps (bit_and c.fps fps_rw) c)
  d ← decode_operand spec false
  fps ← gets (λ c. c.fps)
  write_operand d false fps

unfoldable pub op_stst : ℕ → M (Unit {0})
op_stst spec = do
  d ← decode_operand spec false
  c ← get
  if d.is_reg then modify (λ s. set_r d.reg s.fec s) else (do
    cpu_write_word d.addr c.fec
    fea ← gets (λ s. s.fea)
    cpu_write_word (u16 (d.addr + 2)) fea)

-- ABS and NEG of a packed number, which make 0 of a number whose exponent is 0.
unfoldable pub fp_abs : ℕ → ℕ
fp_abs v = if fp_exp v == 0 then 0 else and_not v fp_signbit

unfoldable pub fp_neg : ℕ → ℕ
fp_neg v = if fp_exp v == 0 then 0 else bit_xor v fp_signbit

unfoldable pub op_clrf : ℕ → ℕ → M (Unit {0})
op_clrf spec len = do o ← decode_fp spec len; write_fp o len 0; modify (put_fps_cc fps_z)

-- ABS and NEG, by what they make of the number.
unfoldable pub op_unary : (ℕ → ℕ) → ℕ → ℕ → M (Unit {0})
unfolding fp_setcc
op_unary f spec len = do
  o ← decode_fp spec len
  v ← read_fp o len
  write_fp o len (f v)
  modify (λ c. set_fps (fp_setcc c.fps (f v) 0) c)

unfoldable pub op_tstf : ℕ → ℕ → M (Unit {0})
unfolding fp_setcc
op_tstf spec len = do
  o ← decode_fp spec len
  v ← read_fp o len
  modify (λ c. set_fps (fp_setcc c.fps v 0) c)

unfoldable pub op_fp_control : ℕ → M (Unit {0})
unfolding fp_special op_ldfps op_stfps op_stst
op_fp_control word =
    let subop = bit_and (word >>> 6) 0o3 in
    let spec = bit_and word 0o77 in
    if subop == 0
    then modify (fp_special word)
    else if subop == 1
    then op_ldfps spec
    else if subop == 2
    then op_stfps spec
    else op_stst spec

unfoldable pub op_fp_single : ℕ → ℕ → M (Unit {0})
unfolding op_clrf op_tstf op_unary fp_abs fp_neg
op_fp_single word len =
    let subop = bit_and (word >>> 6) 0o3 in
    let spec = bit_and word 0o77 in
    if subop == 0
    then op_clrf spec len
    else if subop == 1
    then op_tstf spec len
    else if subop == 2
    then op_unary fp_abs spec len
    else op_unary fp_neg spec len
