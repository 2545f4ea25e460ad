-- ===== src/Instr/Mode.antt =====
-- src/core/cpu/cpu.c: MFPI, MFPD, MTPI and MTPD, which reach the previous mode's space.
use emulator_pdp.Prelude.{ℕ, bit_and, not, ◌==◌, ◌&&◌, if◌then◌else◌, field, update, Bool, false}
use emulator_pdp.State.{Cpu}
use emulator_pdp.Monad.{M, gets, modify, ◌>>=◌, ◌>>◌}
use emulator_pdp.Interrupt.{cur_mode}
use emulator_pdp.Access.{cpu_read_word_gen, cpu_write_word_mode}
use emulator_pdp.Stack.{set_r, push_word, pop_word}
use emulator_pdp.Operand.{decode_operand}
use emulator_pdp.Alu.{psw_v, set_flag, set_nz}

abbrev prev_mode : Cpu → ℕ
prev_mode c = field c.psw 12 2

unfoldable pub op_mfp : ℕ → Bool → M (Unit {0})
unfolding cur_mode
op_mfp word dspace = do
  pm ← gets prev_mode
  cm ← gets cur_mode
  src ← decode_operand (bit_and word 0o77) false
  value ←
      if src.is_reg
      then gets (λ c. if src.reg == 6 && not (cm == pm) then c.stackfile pm else c.r src.reg)
      else cpu_read_word_gen src.addr pm dspace
  modify (λ c. set_flag psw_v false (set_nz value false c))
  push_word value

unfoldable pub op_mtp : ℕ → Bool → M (Unit {0})
unfolding cur_mode
op_mtp word dspace = do
  pm ← gets prev_mode
  cm ← gets cur_mode
  value ← pop_word
  modify (λ c. set_flag psw_v false (set_nz value false c))
  dst ← decode_operand (bit_and word 0o77) false
  if dst.is_reg
      then modify (λ c.
        if dst.reg == 6 && not (cm == pm)
        then record c { stackfile = update c.stackfile pm value }
        else set_r dst.reg value c)
      else cpu_write_word_mode dst.addr pm dspace value
