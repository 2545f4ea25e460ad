-- ===== src/Stack.antt =====
-- src/core/cpu/cpu.c: the kernel stack limit, and pushes and pops on R6.
pub mod Words
use emulator_pdp.Prelude.{
  ℕ, ◌+◌, bit_or, leb, not, ◌==◌, ◌||◌, if◌then◌else◌, u16, sub16, field, update, true, false,
}
use emulator_pdp.State.{Cpu}
use emulator_pdp.Monad.{M, ok, get, gets, modify, ◌>>=◌, ◌>>◌, cpu_bus_fault}
use emulator_pdp.Mmu.{vec_bus}
use emulator_pdp.Access.{cpu_read_word, cpu_write_word}

abbrev pub set_r : ℕ → ℕ → Cpu → Cpu
set_r i v c = record c { r = update c.r i v }

abbrev pub yellow : Cpu → Cpu
yellow c = record c { cpuerr = bit_or c.cpuerr 0o10; stack_yellow_pending = true }

-- The red zone: the kernel SP is forced to 4 and the instruction aborted.
abbrev pub red : Cpu → Cpu
red c = record c {
  cpuerr = bit_or c.cpuerr 0o4;
  r = update c.r 6 4;
  stackfile = update c.stackfile 0 4;
  servicing_stack_trap = true;
  in_trap_push = false;
}

unfoldable pub check_stack_limit : ℕ → M (Unit {0})
check_stack_limit sp c =
    if c.in_trap_push || not (field c.psw 14 2 == 0)
    then ok tt c
    else if leb (u16 (c.stklim + 0o400)) sp
    then ok tt c
    else if c.cfg.has_stklf
    then ok tt (yellow c)
    else if c.cfg.has_stklr
    then if leb (u16 (c.stklim + 0o340)) sp then ok tt (yellow c) else cpu_bus_fault vec_bus (red c)
    else ok tt c

unfoldable pub push_word : ℕ → M (Unit {0})
unfolding check_stack_limit
push_word value = do
  modify (λ c. set_r 6 (sub16 (c.r 6) 2) c)
  sp ← gets (λ c. c.r 6)
  check_stack_limit sp
  cpu_write_word sp value

unfoldable pub pop_word : M ℕ
pop_word = do
  c ← get
  value ← cpu_read_word (c.r 6)
  modify (λ c. set_r 6 (u16 (c.r 6 + 2)) c)
  gets (λ _. value)
