-- ===== src/Events.antt =====
-- src/core/cpu/cpu.c: scheduled events, the idle-skip of WAIT, and what a step does before it fetches.
pub mod Grants
pub mod Due
use emulator_pdp.Prelude.{
  ℕ, ◌+◌, ◌-◌, ◌^◌, and_not, not, ltb, leb, ◌==◌, ◌&&◌, if◌then◌else◌, u64, field, Bool, true,
  false, Option, none, some,
}
use emulator_pdp.State.{Cpu}
use emulator_pdp.Monad.{M, modify, ◌>>◌}
use emulator_pdp.Interrupt.{highest_pir_level, highest_int, int_vec}
use emulator_pdp.Clk.{clk_tick}
use emulator_pdp.Console.{console_tx_poll}
use emulator_pdp.Mmu.{vec_bus}
use emulator_pdp.Instr.Trap.{do_trap, vec_bpt, vec_pirq}
use emulator_pdp.Device.Rk11
use emulator_pdp.Device.Rl11
use emulator_pdp.Device.Rp11
use emulator_pdp.Device.Tm11

unfoldable pub service_clock : Cpu → Cpu
service_clock c =
    if not (c.clk_tick_ns == 0) && leb c.clk_next_ns c.time_ns
    then (let c1 = clk_tick c in record c1 { clk_next_ns = u64 (c1.clk_next_ns + c1.clk_tick_ns) })
    else c

abbrev pub poll_when : (Cpu → Bool) → (Cpu → Cpu) → Cpu → Cpu
poll_when busy poll c = if busy c then poll c else c

unfoldable pub service_due_events : Cpu → Cpu
unfolding service_clock
service_due_events c =
    let c1 = service_clock c in
    let c2 = poll_when (λ s. s.tto_busy) console_tx_poll c1 in
    let c3 = poll_when (λ s. s.rk.busy) Rk11.poll c2 in
    let c4 = poll_when (λ s. s.rp.busy) Rp11.poll c3 in
    let c5 = poll_when (λ s. s.tm.busy) Tm11.poll c4 in poll_when (λ s. s.rl.busy) Rl11.poll c5

abbrev pub never : ℕ
never = 2 ^ 64 - 1

-- One of the comparisons of `pdp11_next_event_ns`.
abbrev pub sooner : Bool → ℕ → ℕ → ℕ
sooner pending at t = if pending && ltb at t then at else t

unfoldable pub next_event_ns : Cpu → ℕ
next_event_ns c = sooner c.rl.busy c.rl.done_ns (
    sooner c.tm.busy c.tm.done_ns (
      sooner c.rp.busy c.rp.done_ns (
        sooner c.rk.busy c.rk.done_ns (
          sooner c.tto_busy c.tto_done_ns
            (sooner (not (c.clk_tick_ns == 0)) c.clk_next_ns never)))))

-- What a step does while WAIT idles the processor.
unfoldable pub idle_skip : Cpu → Cpu
unfolding next_event_ns service_due_events
idle_skip c =
    let next = next_event_ns c in
    if next == never
    then c
    else service_due_events (if ltb c.time_ns next then record c { time_ns = next } else c)

unfoldable pub count_instr : Cpu → Cpu
count_instr c = record c { instr_count = u64 (c.instr_count + 1) }

-- The request that a step grants: a device, a program interrupt, or none.
pub data Grant : Type 0 where
  device : ℕ → Grant
  program : Grant
  nothing : Grant

unfoldable pub arbitrate : Cpu → Grant
arbitrate c =
    let ipl = field c.psw 5 3 in
    let pir = highest_pir_level c.pirq in
    let (best, devipl) = highest_int c in
    let by_program = if ltb ipl pir then program else nothing in
    elim best [
      | some dev ↦ if ltb ipl devipl && leb pir devipl then device dev else by_program
      | none ↦ by_program
    ]

-- The grant carried out; `none` where no interrupt is taken.
unfoldable pub carry_out : Grant → Option (M (Unit {0}))
unfolding count_instr
carry_out (device dev) = some (do
  modify (λ s. record s { waiting = false; int_req = and_not s.int_req (2 ^ dev) })
  do_trap (int_vec dev)
  modify count_instr)
carry_out program =
    some (do modify (λ s. record s { waiting = false }); do_trap vec_pirq; modify count_instr)
carry_out nothing = none

unfoldable pub grant_interrupt : Cpu → Option (M (Unit {0}))
unfolding arbitrate carry_out
grant_interrupt c = carry_out (arbitrate c)

-- The traps and interrupts that a step takes in place of an instruction.
unfoldable pub take_pending : Cpu → Option (M (Unit {0}))
unfolding grant_interrupt
take_pending c =
    if c.trace_pending
    then some (do modify (λ s. record s { trace_pending = false }); do_trap vec_bpt)
    else if c.stack_yellow_pending
    then some (do
      modify (λ s. record s { stack_yellow_pending = false; servicing_stack_trap = true })
      do_trap vec_bus
      modify (λ s. record s { servicing_stack_trap = false }))
    else grant_interrupt c
