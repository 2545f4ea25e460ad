-- ===== src/Step/Idle.antt =====
-- src/core/cpu/cpu.c: WAIT, as `pdp11_cpu_step` carries it out.
use mathlib.Core.Path.{subst}
use emulator_pdp.Prelude.{
  ℕ, zero, suc, and_not, sym, bit_and, ◌+◌, ◌^◌, ◌≤◌, ◌<◌, ◌==◌, ltb, leb, not, tst, bit_or, field,
  u64, if◌then◌else◌, Bool, true, false, Option, none, some, ◌≡◌, refl, ap, ◌∙◌, inl, inr, arith,
  Bool-cases,
}
use emulator_pdp.State.{Cpu}
use native.Mathlib.Nat.{pow-suc}
use emulator_pdp.Bits.{bit_or-bit_and, bit_or-bit_and_other, bit_and_comm, bit_and_low}
use emulator_pdp.Monad.{M, ok, modify, bind_ok}
use emulator_pdp.Memory.{read_word}
use emulator_pdp.Access.{count_read}
use emulator_pdp.Instr.Trap.{do_trap}
use emulator_pdp.Instr.Trap.Entry.{IsTrapping, trapped, trap_psw, do_trap_lem}
use emulator_pdp.Clk.{kw11l_ie, kw11l_done, clk_tick}
use emulator_pdp.Interrupt.{put_psw, int_clk, set_int, highest_pir_level}
use emulator_pdp.Interrupt.Levels.{requested}
use emulator_pdp.Events.{
  Grant, arbitrate, take_pending, grant_interrupt, carry_out, idle_skip, next_event_ns,
  service_due_events, service_clock, never, count_instr,
}
use emulator_pdp.Events.Grants.{IsGranted, arbitrate-IsGranted}
use emulator_pdp.Step.{pdp11_cpu_step}

-- A machine that WAIT idles, with its line clock running and able to interrupt, and nothing else due.
pub record IsIdle (c : Cpu) : Type 0 where
  pub runs : c.halted ≡ false
  pub waits : c.waiting ≡ true
  pub calm : take_pending c ≡ none
  pub ticks : c.clk_tick_ns == 0 ≡ false
  pub soon : c.clk_next_ns < never
  pub enabled : tst c.clk_csr kw11l_ie ≡ true
  pub tto_idle : c.tto_busy ≡ false
  pub rk_idle : c.rk.busy ≡ false
  pub rp_idle : c.rp.busy ≡ false
  pub tm_idle : c.tm.busy ≡ false
  pub rl_idle : c.rl.busy ≡ false
  pub low : field c.psw 5 3 < 6

-- The time that idling leaves.
abbrev pub later : Cpu → ℕ
later c = if ltb c.time_ns c.clk_next_ns then c.clk_next_ns else c.time_ns

abbrev at_tick : Cpu → Cpu
at_tick c = record c { time_ns = later c }

-- The machine after the tick.
abbrev pub ticked : Cpu → Cpu
ticked c = record c {
  time_ns = later c;
  clk_csr = bit_or c.clk_csr kw11l_done;
  int_req = bit_or c.int_req (2 ^ int_clk);
  clk_next_ns = u64 (c.clk_next_ns + c.clk_tick_ns);
}

jumped :
    (c : Cpu)
    → (if ltb c.time_ns c.clk_next_ns then record c { time_ns = c.clk_next_ns } else c) ≡ at_tick c
jumped c = elim (Bool-cases (ltb c.time_ns c.clk_next_ns)) [ inl e ↦ rw e refl | inr e ↦ rw e refl ]

next_is_tick : (c : Cpu) → IsIdle c → next_event_ns c ≡ c.clk_next_ns
unfolding next_event_ns
next_is_tick c h =
    ground (arith, h.tto_idle, h.rk_idle, h.rp_idle, h.tm_idle, h.rl_idle, h.ticks, h.soon)

tick_lem : (c : Cpu) → IsIdle c → service_clock (at_tick c) ≡ ticked c
unfolding service_clock clk_tick set_int
tick_lem c h =
    let due : leb c.clk_next_ns (later c) ≡ true = ground arith in
    let still : tst (bit_or c.clk_csr kw11l_done) kw11l_ie ≡ true =
      ap (λ t. not (t == 0)) (bit_or-bit_and_other c.clk_csr kw11l_done kw11l_ie refl)
      ∙ h.enabled in
    rw (h.ticks, due, still) refl

served : (c : Cpu) → IsIdle c → service_due_events (at_tick c) ≡ ticked c
unfolding service_due_events
served c h = rw (tick_lem c h, h.tto_idle, h.rk_idle, h.rp_idle, h.tm_idle, h.rl_idle) refl

idle_skip-ticked : (c : Cpu) → IsIdle c → idle_skip c ≡ ticked c
unfolding idle_skip
idle_skip-ticked c h =
    let some_event : c.clk_next_ns == never ≡ false = ground (arith, h.soon) in
    rw (next_is_tick c h, some_event, jumped c) (served c h)

abbrev is_some : {A : Type 0} → Option A → Bool
is_some none = false
is_some (some x) = true

-- Where no trap and no interrupt is taken, none is pending and no request is granted.
record IsCalm (c : Cpu) : Type 0 where
  untraced : c.trace_pending ≡ false
  clear : c.stack_yellow_pending ≡ false
  quiet : arbitrate c ≡ Grant.nothing

ungranted : (g : Grant) → is_some (carry_out g) ≡ false → g ≡ Grant.nothing
unfolding carry_out
ungranted (Grant.device dev) h = absurd (cc)
ungranted Grant.program h = absurd (cc)
ungranted Grant.nothing h = refl

calm_lem : (c : Cpu) → is_some (take_pending c) ≡ false → IsCalm c
unfolding take_pending grant_interrupt
calm_lem c h = elim (Bool-cases c.trace_pending) [
  | inl e ↦ absurd (cc (simp e at h))
  | inr e ↦ elim (Bool-cases c.stack_yellow_pending) [
    | inl f ↦ absurd (cc (simp (e, f) at h))
    | inr f ↦ record { untraced = e; clear = f; quiet = ungranted (arbitrate c) (simp (e, f) at h) }
  ]
]

-- The bit of the clock is not that of another device.
other_bit : (dev : ℕ) → 0 < dev → bit_and (2 ^ int_clk) (2 ^ dev) ≡ 0
other_bit zero h = absurd (omega arith)
other_bit (suc k) h =
    bit_and_comm 1 (2 ^ suc k) ∙ bit_and_low 1 (2 ^ suc k) ∙ omega (arith, pow-suc 2 k)

-- Only the clock asks above the priority after the tick, and it does.
only_clock :
    (int_req ipl pir : ℕ) (g : Grant)
    → ipl < 6
    → IsGranted int_req ipl pir Grant.nothing
    → IsGranted (bit_or int_req (2 ^ int_clk)) ipl pir g
    → g ≡ Grant.device int_clk
only_clock int_req ipl pir (Grant.device dev) low calm h = elim (Bool-cases (dev == 0)) [
  | inl e ↦ let clock : dev ≡ 0 = ground (arith, e) in ap Grant.device clock
  | inr e ↦
      let pos : 0 < dev = ground (arith, e) in
      let asked : requested int_req dev ≡ true =
        ap (λ t. not (t == 0))
          (sym (bit_or-bit_and_other int_req (2 ^ int_clk) (2 ^ dev) (other_bit dev pos)))
        ∙ h.0 in
      let bound = calm.1 dev h.1 asked in absurd (omega (arith, bound, h.2))
]
only_clock int_req ipl pir Grant.program low calm h = absurd (omega (arith, calm.0, h.0))
only_clock int_req ipl pir Grant.nothing low calm h =
    let bound =
      h.1 int_clk (omega arith) (ap (λ t. not (t == 0)) (bit_or-bit_and int_req (2 ^ int_clk))) in
    absurd (omega (arith, low, bound))

clock_granted : (c : Cpu) → IsIdle c → arbitrate (ticked c) ≡ Grant.device int_clk
clock_granted c h =
    let calm =
      subst (IsGranted c.int_req (field c.psw 5 3) (highest_pir_level c.pirq))
        (calm_lem c (ap is_some h.calm)).quiet (arbitrate-IsGranted c) in
    only_clock c.int_req (field c.psw 5 3) (highest_pir_level c.pirq) (arbitrate (ticked c)) h.low
      calm (arbitrate-IsGranted (ticked c))

-- The machine of which the clock interrupt is taken: awake, with the request gone.
abbrev pub cleared : Cpu → Cpu
cleared c =
    let t = ticked c in record t { waiting = false; int_req = and_not t.int_req (2 ^ int_clk) }

-- The machine at the first instruction of the handler of the clock.
abbrev pub interrupted : Cpu → Cpu
interrupted c =
    let t = trapped 0o100 (cleared c) in record t { instr_count = u64 (t.instr_count + 1) }

waiting-put_psw : (value : ℕ) (c : Cpu) → (put_psw value c).waiting ≡ c.waiting
unfolding put_psw
waiting-put_psw value c = ground arith

awake : (c : Cpu) → (interrupted c).waiting ≡ false
unfolding count_read
awake c =
    let d = cleared c in waiting-put_psw (trap_psw 0o100 d) (count_read 0o102 (count_read 0o100 d))

pending_is_grant :
    (c : Cpu)
    → c.trace_pending ≡ false
    → c.stack_yellow_pending ≡ false
    → take_pending c ≡ carry_out (arbitrate c)
unfolding take_pending grant_interrupt
pending_is_grant c untraced clear = simp (untraced, clear) refl

interrupt_taken : (c : Cpu) → IsIdle c → take_pending (ticked c) ≡ carry_out (Grant.device int_clk)
interrupt_taken c h =
    let calm = calm_lem c (ap is_some h.calm) in
    pending_is_grant (ticked c) calm.untraced calm.clear ∙ ap carry_out (clock_granted c h)

step_idles :
    (c : Cpu)
    → c.halted ≡ false
    → take_pending c ≡ none
    → c.waiting ≡ true
    → pdp11_cpu_step c ≡ ok tt (idle_skip c)
unfolding pdp11_cpu_step
step_idles c runs calm waits = simp (calm, runs, waits) refl

step_takes :
    (c : Cpu) (m : M (Unit {0}))
    → c.halted ≡ false
    → take_pending c ≡ some m
    → pdp11_cpu_step c ≡ m c
unfolding pdp11_cpu_step
step_takes c m runs takes = simp (takes, runs) refl

second_step :
    (c : Cpu)
    → IsIdle c
    → IsTrapping 0o100 (cleared c)
    → pdp11_cpu_step (ticked c) ≡ ok tt (interrupted c)
unfolding carry_out count_instr
second_step c h trap =
    step_takes (ticked c) _ h.runs (interrupt_taken c h)
    ∙ bind_ok (do_trap 0o100) (λ _. modify count_instr) (cleared c) (trapped 0o100 (cleared c)) tt
        (do_trap_lem 0o100 (cleared c) trap)

-- A machine that WAIT idles, with nothing pending, no device busy, the line clock running with its
-- interrupt enabled and the priority below 6, leaves WAIT in two steps. The first takes the time to
-- the next tick at the latest, with the tick served and its interrupt requested. The second takes
-- that interrupt, where its vector and stack are in plain memory with management off: it ends awake,
-- with the PC that the vector 0100 gives, the old PC and PSW on the stack and the request gone.
pub pdp11_cpu_step-idle :
    (c : Cpu)
    → IsIdle c
    → IsTrapping 0o100 (cleared c)
    → (pdp11_cpu_step c ≡ ok tt (ticked c))
      × (c.clk_next_ns ≤ (ticked c).time_ns)
      × (pdp11_cpu_step (ticked c) ≡ ok tt (interrupted c))
      × ((interrupted c).waiting ≡ false)
      × ((interrupted c).r 7 ≡ read_word c.mem 0o100)
pdp11_cpu_step-idle c h trap = (
  step_idles c h.runs h.calm h.waits ∙ ap (ok tt) (idle_skip-ticked c h),
  ground arith,
  second_step c h trap,
  awake c,
  refl,
)
