-- ===== src/Clk.antt =====
-- src/core/clk: the KW11-L line clock, one status register.
pub mod Requests
use emulator_pdp.Prelude.{ℕ, bit_and, bit_or, and_not, tst, ◌==◌, if◌then◌else◌, u16}
use emulator_pdp.State.{Cpu}
use emulator_pdp.Interrupt.{set_int, clr_int, int_clk}

abbrev pub kw11l_ie : ℕ
kw11l_ie = 0o100

abbrev pub kw11l_done : ℕ
kw11l_done = 0o200

unfoldable pub clk_read : Cpu → ℕ
clk_read c = u16 (bit_and c.clk_csr (bit_or kw11l_done kw11l_ie))

unfoldable pub clk_write : ℕ → Cpu → Cpu
clk_write value c =
    let c1 = record c {
      clk_csr = u16 (bit_or (and_not c.clk_csr kw11l_ie) (bit_and value kw11l_ie));
    } in
    let c2 =
      if tst value kw11l_done then c1 else record c1 { clk_csr = and_not c1.clk_csr kw11l_done } in
    if bit_and c2.clk_csr (bit_or kw11l_ie kw11l_done) == bit_or kw11l_ie kw11l_done
    then set_int int_clk c2
    else clr_int int_clk c2

unfoldable pub clk_tick : Cpu → Cpu
clk_tick c =
    let c1 = record c { clk_csr = bit_or c.clk_csr kw11l_done } in
    if tst c1.clk_csr kw11l_ie then set_int int_clk c1 else c1
