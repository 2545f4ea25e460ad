-- ===== src/Events/Due.antt =====
-- `pdp11_next_event_ns` and `pdp11_service_due_events`: the deadlines and what serving them does.
use emulator_pdp.Prelude.{
  ℕ, ◌≤◌, ◌<◌, ◌==◌, not, Bool, true, ◌≡◌, refl, ◌⊎◌, inl, inr, arith, Bool-cases,
}
use emulator_pdp.State.{Cpu}
use emulator_pdp.Console.{console_tx_poll}
use emulator_pdp.Device.Rk11
use emulator_pdp.Device.Rl11
use emulator_pdp.Device.Rp11
use emulator_pdp.Device.Tm11
use emulator_pdp.Events.{service_clock, service_due_events, next_event_ns, never, poll_when}

-- A time at which some part has work pending.
abbrev IsDeadline : Cpu → ℕ → Type 0
IsDeadline c t =
    ((not (c.clk_tick_ns == 0) ≡ true) × (t ≡ c.clk_next_ns))
    ⊎ ((c.tto_busy ≡ true) × (t ≡ c.tto_done_ns))
    ⊎ ((c.rk.busy ≡ true) × (t ≡ c.rk.done_ns))
    ⊎ ((c.rp.busy ≡ true) × (t ≡ c.rp.done_ns))
    ⊎ ((c.tm.busy ≡ true) × (t ≡ c.tm.done_ns))
    ⊎ ((c.rl.busy ≡ true) × (t ≡ c.rl.done_ns))

-- The time that the scheduler announces is a pending deadline, or it is the never of 2^64 - 1.
next_event_ns-IsDeadline : (c : Cpu) → (next_event_ns c ≡ never) ⊎ IsDeadline c (next_event_ns c)
unfolding next_event_ns
next_event_ns-IsDeadline c = ground arith

-- No pending deadline is before the time that the scheduler announces.
pub next_event_ns-least : (c : Cpu) (t : ℕ) → IsDeadline c t → next_event_ns c ≤ t
unfolding next_event_ns
next_event_ns-least c t d = ground arith

poll_when-early :
    (busy : Cpu → Bool) (poll : Cpu → Cpu) (c : Cpu)
    → (busy c ≡ true → poll c ≡ c)
    → poll_when busy poll c ≡ c
poll_when-early busy poll c h = elim (Bool-cases (busy c)) [
  | inl b ↦ rw b (h b)
  | inr b ↦ rw b refl
]

rk_early : (c : Cpu) → c.time_ns < c.rk.done_ns → Rk11.poll c ≡ c
unfolding Rk11.poll
rk_early c early = ground arith

rl_early : (c : Cpu) → c.time_ns < c.rl.done_ns → Rl11.poll c ≡ c
unfolding Rl11.poll
rl_early c early = ground arith

rp_early : (c : Cpu) → c.time_ns < c.rp.done_ns → Rp11.poll c ≡ c
unfolding Rp11.poll
rp_early c early = ground arith

tm_early : (c : Cpu) → c.time_ns < c.tm.done_ns → Tm11.poll c ≡ c
unfolding Tm11.poll
tm_early c early = ground arith

tx_early : (c : Cpu) → c.time_ns < c.tto_done_ns → console_tx_poll c ≡ c
unfolding console_tx_poll
tx_early c early = ground arith

clock_early :
    (c : Cpu) → (not (c.clk_tick_ns == 0) ≡ true → c.time_ns < c.clk_next_ns) → service_clock c ≡ c
unfolding service_clock
clock_early c early = ground arith

-- While the time is before the one that the scheduler announces, serving the due events leaves
-- the whole machine as it is.
pub service_due_events-early : (c : Cpu) → c.time_ns < next_event_ns c → service_due_events c ≡ c
unfolding service_due_events next_event_ns
service_due_events-early c early =
    rw
      (
        clock_early c (λ p. ground arith),
        poll_when-early (λ s. s.tto_busy) console_tx_poll c (λ p. tx_early c (ground arith)),
        poll_when-early (λ s. s.rk.busy) Rk11.poll c (λ p. rk_early c (ground arith)),
        poll_when-early (λ s. s.rp.busy) Rp11.poll c (λ p. rp_early c (ground arith)),
        poll_when-early (λ s. s.tm.busy) Tm11.poll c (λ p. tm_early c (ground arith)),
        poll_when-early (λ s. s.rl.busy) Rl11.poll c (λ p. rl_early c (ground arith)),
      )
      refl
