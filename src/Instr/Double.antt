-- ===== src/Instr/Double.antt =====
-- src/core/cpu/cpu.c: the double-operand instructions.
use emulator_pdp.Prelude.{
  ℕ, bit_and, bit_or, and_not, tst, ◌&&◌, if◌then◌else◌, ◌>>>◌, u16, Bool, true, false,
}
use emulator_pdp.State.{Cpu}
use emulator_pdp.Monad.{M, ok, pure, modify, ◌>>=◌, ◌>>◌}
use emulator_pdp.Stack.{set_r}
use emulator_pdp.Operand.{Operand, decode_operand, read_operand, write_operand}
use emulator_pdp.Alu.{psw_v, set_flag, set_nz, alu_add, alu_sub}

-- A function of the state that also returns a value.
abbrev pub run : (Cpu → ℕ × Cpu) → M ℕ
run f c = let (v, c') = f c in ok v c'

abbrev pub src_spec : ℕ → ℕ
src_spec word = bit_and (word >>> 6) 0o77

abbrev pub dst_spec : ℕ → ℕ
dst_spec word = bit_and word 0o77

pub record DoubleOp : Type 0 where
  pub src : Operand
  pub dst : Operand
  pub s : ℕ
  pub d : ℕ

unfoldable pub decode_double : ℕ → Bool → Bool → M DoubleOp
decode_double word bytemode read_dst = do
  src ← decode_operand (src_spec word) bytemode
  s ← read_operand src bytemode
  dst ← decode_operand (dst_spec word) bytemode
  d ← if read_dst then read_operand dst bytemode else pure 0
  pure (record { src = src; dst = dst; s = s; d = d })

-- N and Z from a result, V cleared.
abbrev pub logic_codes : ℕ → Bool → M (Unit {0})
logic_codes result bytemode = modify (λ c. set_flag psw_v false (set_nz result bytemode c))

-- What MOVB leaves in a register: the byte through all 16 bits.
unfoldable pub sign_extended : ℕ → ℕ
sign_extended value =
    if tst value 0o200 then u16 (bit_or value 0o177400) else u16 (bit_and value 0o377)

unfoldable pub op_mov : ℕ → Bool → M (Unit {0})
unfolding sign_extended
op_mov word bytemode = do
  src ← decode_operand (src_spec word) bytemode
  value ← read_operand src bytemode
  dst ← decode_operand (dst_spec word) bytemode
  if bytemode && dst.is_reg
      then modify (set_r dst.reg (sign_extended value))
      else write_operand dst bytemode value
  logic_codes value bytemode

unfoldable pub op_cmp : ℕ → Bool → M (Unit {0})
op_cmp word bytemode = do
  o ← decode_double word bytemode true
  modify (λ c. (alu_sub o.s o.d bytemode c).1)

unfoldable pub op_add : ℕ → M (Unit {0})
op_add word = do
  o ← decode_double word false true
  result ← run (alu_add o.d o.s false)
  write_operand o.dst false result

unfoldable pub op_sub : ℕ → M (Unit {0})
op_sub word = do
  o ← decode_double word false true
  result ← run (alu_sub o.d o.s false)
  write_operand o.dst false result

unfoldable pub op_bit : ℕ → Bool → M (Unit {0})
op_bit word bytemode = do
  o ← decode_double word bytemode true
  logic_codes (u16 (bit_and o.s o.d)) bytemode

unfoldable pub op_bic : ℕ → Bool → M (Unit {0})
op_bic word bytemode = do
  o ← decode_double word bytemode true
  let result = u16 (and_not o.d o.s)
  write_operand o.dst bytemode result
  logic_codes result bytemode

unfoldable pub op_bis : ℕ → Bool → M (Unit {0})
op_bis word bytemode = do
  o ← decode_double word bytemode true
  let result = u16 (bit_or o.d o.s)
  write_operand o.dst bytemode result
  logic_codes result bytemode
