-- ===== src/Console/Transmission.antt =====
-- A character written to the DL11 transmitter, and the poll that completes it.
use emulator_pdp.Prelude.{
  ℕ, ◌+◌, ◌^◌, ◌%◌, bit_and, bit_or, and_not, tst, u8, u64, true, false, ◌≡◌, refl, ap, leb, ltb,
  ◌==◌, not, arith, Bool-cases, inl, inr, ◌∷◌,
}
use emulator_pdp.State.{Cpu}
use emulator_pdp.Bits.{bit_and_low, bit_or-bit_and, and_not-bit_and}
use emulator_pdp.Interrupt.{set_int, clr_int}
use emulator_pdp.Console.{
  console_write, console_tx_poll, transmit, dl11_xbuf, dl11_done, dl11_ie, dl11_tx_ns,
}

-- The machine at time `t` after a write of XBUF.
abbrev pub sent : ℕ → ℕ → Cpu → Cpu
sent value t c = record (console_write dl11_xbuf value c) { time_ns = t }

eight_bits : (value : ℕ) → u8 (bit_and value 0o377) ≡ value % 2 ^ 8
eight_bits value = omega (arith, bit_and_low 8 value)

-- With a sink attached, a character written to the transmitter reaches the sink at once, in 8
-- bits, and a poll at time `t` finds the transmitter busy and not ready before its character
-- time is over, ready and not busy from then on.
pub console_tx_poll-sent :
    (value t : ℕ) (c : Cpu)
    → c.has_sink ≡ true
    → ((console_tx_poll (sent value t c)).printed ≡ value % 2 ^ 8 ∷ c.printed)
      × ((console_tx_poll (sent value t c)).tto_busy ≡ ltb t (u64 (c.time_ns + dl11_tx_ns)))
      × (tst (console_tx_poll (sent value t c)).tto_csr dl11_done
          ≡ leb (u64 (c.time_ns + dl11_tx_ns)) t)
unfolding console_tx_poll console_write transmit clr_int set_int
console_tx_poll-sent value t c sink =
    let due = u64 (c.time_ns + dl11_tx_ns) in
    let csr = and_not c.tto_csr dl11_done in
    let line = ap (λ x. x ∷ c.printed) (eight_bits value) in
    elim (Bool-cases (leb due t)) [
      | inl over ↦
          let late : ltb t due ≡ false = ground arith in
          let set = ap (λ x. not (x == 0)) (bit_or-bit_and csr dl11_done) in
          elim (Bool-cases (tst (bit_or csr dl11_done) dl11_ie)) [
            | inl on ↦ rw (sink, over, late, on) (line, refl, set)
            | inr off ↦ rw (sink, over, late, off) (line, refl, set)
          ]
      | inr before ↦
          let soon : ltb t due ≡ true = ground arith in
          rw (sink, before, soon)
            (line, refl, ap (λ x. not (x == 0)) (and_not-bit_and c.tto_csr dl11_done))
    ]
