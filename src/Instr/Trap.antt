-- ===== src/Instr/Trap.antt =====
-- src/core/cpu/cpu.c: traps, and the return from them.
pub mod Entry
pub mod Return
use emulator_pdp.Prelude.{
  ℕ, ◌+◌, bit_or, and_not, tst, not, ◌&&◌, if◌then◌else◌, ◌<<<◌, u16, field, Bool, true, false,
}
use emulator_pdp.Monad.{M, get, modify, skip, ◌>>=◌, ◌>>◌}
use emulator_pdp.Interrupt.{put_psw}
use emulator_pdp.IoPage.{psw_t}
use emulator_pdp.Access.{cpu_read_word_gen}
use emulator_pdp.Stack.{set_r, check_stack_limit, push_word, pop_word}

abbrev pub vec_reserved : ℕ
vec_reserved = 0o10

abbrev pub vec_bpt : ℕ
vec_bpt = 0o14

abbrev pub vec_iot : ℕ
vec_iot = 0o20

abbrev pub vec_emt : ℕ
vec_emt = 0o30

abbrev pub vec_trap : ℕ
vec_trap = 0o34

abbrev pub vec_pirq : ℕ
vec_pirq = 0o240

-- The end of `do_trap`: the limit is checked once, unless this is a stack trap.
recheck_stack : M (Unit {0})
recheck_stack c = if not c.servicing_stack_trap then check_stack_limit (c.r 6) c else skip c

unfoldable pub do_trap : ℕ → M (Unit {0})
unfolding recheck_stack
do_trap vector = do
  old ← get
  new_pc ← cpu_read_word_gen vector 0 true
  raw_psw ← cpu_read_word_gen (u16 (vector + 2)) 0 true
  let new_psw = u16 (bit_or (and_not raw_psw 0o30000) (field old.psw 14 2 <<< 12))
  modify (put_psw new_psw)
  modify (λ c. record c { in_trap_push = true })
  push_word old.psw
  push_word (old.r 7)
  modify (λ c. record c { in_trap_push = false })
  modify (set_r 7 new_pc)
  modify (λ c. record c { mmr0 = bit_or c.mmr0 0o200 })
  recheck_stack

unfoldable pub op_rti : Bool → M (Unit {0})
op_rti is_rtt = do
  pc ← pop_word
  modify (set_r 7 pc)
  psw ← pop_word
  modify (put_psw psw)
  modify λ c. if not is_rtt && tst c.psw psw_t then record c { trace_pending = true } else c
