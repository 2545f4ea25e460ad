-- ===== src/Step.antt =====
-- src/core/cpu/cpu.c: `pdp11_cpu_step`. An abort of an instruction comes back to the step's own
-- `setjmp`, and is answered there. The trap or the interrupt that a step takes in place of an
-- instruction comes before that `setjmp`: its abort has no handler of this step to go to, and
-- stays a `fault` of the model.
pub mod Idle
pub mod Branch
use emulator_pdp.Prelude.{
  ℕ, zero, suc, ◌+◌, bit_and, tst, not, ltb, ◌==◌, ◌&&◌, if◌then◌else◌, ◌>>>◌, u16, u32, u64, true,
  false, none, some,
}
use emulator_pdp.State.{Cpu}
use emulator_pdp.Monad.{M, ok, fault, modify, ◌>>=◌, ◌>>◌}
use emulator_pdp.Mmu.{mmr0_freeze}
use emulator_pdp.Access.{fetch}
use emulator_pdp.IoPage.{psw_t}
use emulator_pdp.Instr.Double.{op_mov, op_cmp, op_bit, op_bic, op_bis, op_add, op_sub}
use emulator_pdp.Instr.Misc.{decode_misc}
use emulator_pdp.Instr.Trap.{do_trap, vec_reserved}
use emulator_pdp.Instr.Flow.{is_branch, branch_taken}
use emulator_pdp.Instr.Fp11.Dispatch.{op_fp11}
use emulator_pdp.Timing.{instr_timing}
use emulator_pdp.Events.{take_pending, idle_skip, service_due_events, count_instr}

-- The floating-point instructions, where the model has them.
unfoldable pub fp_or_trap : ℕ → M (Unit {0})
fp_or_trap word c = if c.cfg.has_fpp then op_fp11 word c else do_trap vec_reserved c

-- The switch on the top four bits.
unfoldable pub execute : ℕ → M (Unit {0})
unfolding fp_or_trap
execute word =
    let top = bit_and (word >>> 12) 0o17 in
    if top == 0o1
    then op_mov word false
    else if top == 0o2
    then op_cmp word false
    else if top == 0o3
    then op_bit word false
    else if top == 0o4
    then op_bic word false
    else if top == 0o5
    then op_bis word false
    else if top == 0o6
    then op_add word
    else if top == 0o11
    then op_mov word true
    else if top == 0o12
    then op_cmp word true
    else if top == 0o13
    then op_bit word true
    else if top == 0o14
    then op_bic word true
    else if top == 0o15
    then op_bis word true
    else if top == 0o16
    then op_sub word
    else if top == 0o17
    then fp_or_trap word
    else decode_misc word

-- The time of the instruction that has just run.
unfoldable pub step_ns : ℕ → Cpu → ℕ
step_ns word c =
    let hb = u16 (word >>> 8) in
    let ns =
      if is_branch hb
      then (if branch_taken c hb then 600 else 300)
      else if bit_and word 0o177000 == 0o77000
      then (if c.r (bit_and (word >>> 6) 0o7) == 0 then 750 else 600)
      else (instr_timing word).ns in
    u32 (ns + c.eis_extra_ns)

-- What follows the instruction: its time, its count, and the events that came due.
unfoldable pub finish_instr : ℕ → Cpu → Cpu
unfolding step_ns count_instr
finish_instr word c =
    service_due_events (count_instr (record c { time_ns = u64 (c.time_ns + step_ns word c) }))

-- What precedes the fetch. MMR1 and MMR2 are latched unless MMR0 is frozen.
unfoldable pub begin_instr : Cpu → Cpu
begin_instr c =
    let c1 = record c { abort_depth = 0; cc_frozen = false; eis_extra_ns = 0 } in
    if c1.cfg.has_mmu && not (tst c1.mmr0 mmr0_freeze)
    then record c1 { mmr1 = 0; mmr2 = c1.r 7 }
    else c1

unfoldable pub run_instr : M (Unit {0})
unfolding begin_instr execute finish_instr
run_instr = do modify begin_instr; word ← fetch; execute word; modify (finish_instr word)

-- The trap of an abort.
unfoldable pub abort_trap : M (Unit {0})
unfolding do_trap count_instr
abort_trap = do
  λ c. do_trap c.abort_vec c
  modify (λ c. count_instr (record c { servicing_stack_trap = false }))

-- `++cpu->abort_depth`.
unfoldable pub deeper : Cpu → Cpu
deeper c = record c { abort_depth = u32 (c.abort_depth + 1) }

-- The branch of `setjmp` that an abort takes. An abort of the trap comes back to it, on fuel.
unfoldable pub answer_abort : ℕ → Cpu → Cpu
unfolding abort_trap deeper
answer_abort zero c = c
answer_abort (suc fuel) c =
    let c1 = deeper c in
    elim (ltb 8 c1.abort_depth) [
      | true ↦ record c1 { halted = true }
      | false ↦ elim (abort_trap c1) [ ok a c2 ↦ c2 | fault c2 ↦ answer_abort fuel c2 ]
    ]

abbrev pub abort_fuel : ℕ
abort_fuel = 9

-- The instruction, with the handler of its aborts.
unfoldable pub step_instr : Cpu → Cpu
step_instr c = elim (run_instr c) [ ok a c1 ↦ c1 | fault c1 ↦ answer_abort abort_fuel c1 ]

-- A trace trap is armed for after an instruction that begins with T set.
unfoldable pub arm_trace : Cpu → Cpu
arm_trace c = if tst c.psw psw_t then record c { trace_pending = true } else c

unfoldable pub pdp11_cpu_step : M (Unit {0})
unfolding step_instr arm_trace
pdp11_cpu_step c = if c.halted then ok tt c else elim (take_pending c) [
  | some m ↦ m c
  | none ↦ if c.waiting then ok tt (idle_skip c) else ok tt (step_instr (arm_trace c))
]
