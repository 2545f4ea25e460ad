-- ===== src/Console.antt =====
-- src/core/console: the DL11 serial line, a receiver and a transmitter. A call of the sink is one more
-- character of `printed`.
pub mod Reception
pub mod Transmission
use emulator_pdp.Prelude.{
  ℕ, ◌+◌, bit_and, bit_or, and_not, tst, not, leb, ◌==◌, ◌&&◌, if◌then◌else◌, u8, u16, u64, Bool,
  true, false, ◌∷◌,
}
use emulator_pdp.State.{Cpu}
use emulator_pdp.Interrupt.{set_int, clr_int, int_tti, int_tto}

abbrev pub dl11_rcsr : ℕ
dl11_rcsr = 0o177560

abbrev pub dl11_rbuf : ℕ
dl11_rbuf = 0o177562

abbrev pub dl11_xcsr : ℕ
dl11_xcsr = 0o177564

abbrev pub dl11_xbuf : ℕ
dl11_xbuf = 0o177566

abbrev pub dl11_ie : ℕ
dl11_ie = 0o100

abbrev pub dl11_done : ℕ
dl11_done = 0o200

abbrev pub dl11_tx_ns : ℕ
dl11_tx_ns = 1000000

unfoldable pub console_set_sink : Bool → Cpu → Cpu
console_set_sink attached c = record c { has_sink = attached }

unfoldable pub console_input : ℕ → Cpu → Cpu
console_input ch c =
    let c1 = record c { tti_buf = ch; tti_csr = bit_or c.tti_csr dl11_done } in
    if tst c1.tti_csr dl11_ie then set_int int_tti c1 else c1

unfoldable pub console_tx_poll : Cpu → Cpu
console_tx_poll c =
    if c.tto_busy && leb c.tto_done_ns c.time_ns
    then (let c1 = record c { tto_busy = false; tto_csr = bit_or c.tto_csr dl11_done } in
        if tst c1.tto_csr dl11_ie then set_int int_tto c1 else c1)
    else c

unfoldable pub console_read : ℕ → Cpu → ℕ × Cpu
console_read addr c =
    if addr == dl11_rcsr
    then (u16 (bit_and c.tti_csr (bit_or dl11_done dl11_ie)), c)
    else if addr == dl11_rbuf
    then (
      u16 (bit_and c.tti_buf 0o377),
      clr_int int_tti (record c { tti_csr = and_not c.tti_csr dl11_done }),
    )
    else if addr == dl11_xcsr
    then (u16 (bit_and c.tto_csr (bit_or dl11_done dl11_ie)), c)
    else if addr == dl11_xbuf
    then (u16 (bit_and c.tto_buf 0o377), c)
    else (0, c)

-- A write of a control register that holds `csr`: the request of `dev` follows the new IE.
abbrev csr_request : ℕ → ℕ → ℕ → Cpu → Cpu
csr_request dev csr value c =
    if not (tst value dl11_ie)
    then clr_int dev c
    else if bit_and csr (bit_or dl11_done dl11_ie) == dl11_done
    then set_int dev c
    else c

abbrev csr_merge : ℕ → ℕ → ℕ
csr_merge csr value = u16 (bit_or (and_not csr dl11_ie) (bit_and value dl11_ie))

-- A write of XBUF.
transmit : ℕ → Cpu → Cpu
transmit value c =
    let c1 = record c { tto_buf = u16 (bit_and value 0o377) } in
    let c2 =
      if c1.has_sink then record c1 { printed = u8 (bit_and value 0o377) ∷ c1.printed } else c1 in
    let c3 = clr_int int_tto (record c2 { tto_csr = and_not c2.tto_csr dl11_done }) in
    record c3 { tto_busy = true; tto_done_ns = u64 (c3.time_ns + dl11_tx_ns) }

unfoldable pub console_write : ℕ → ℕ → Cpu → Cpu
unfolding transmit
console_write addr value c =
    if addr == dl11_rcsr
    then (let c1 = csr_request int_tti c.tti_csr value c in
        record c1 { tti_csr = csr_merge c1.tti_csr value })
    else if addr == dl11_rbuf
    then c
    else if addr == dl11_xcsr
    then (let c1 = csr_request int_tto c.tto_csr value c in
        record c1 { tto_csr = csr_merge c1.tto_csr value })
    else if addr == dl11_xbuf
    then transmit value c
    else c
