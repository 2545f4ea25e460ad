-- ===== src/Clk/Requests.antt =====
-- The interrupt request of the line clock after a register write.
use emulator_pdp.Prelude.{
  ℕ, ◌^◌, bit_and, bit_or, and_not, tst, u16, Bool, true, false, ◌≡◌, refl, ap, sym, ◌∙◌, ◌==◌,
  ◌&&◌, not, arith, if◌then◌else◌,
}
use emulator_pdp.State.{Cpu}
use emulator_pdp.Bits.{bit_and_low, bit_and_parts, bit_or-bit_and, and_not-bit_and}
use emulator_pdp.Interrupt.{set_int, clr_int, int_clk}
use emulator_pdp.Clk.{clk_write, kw11l_ie, kw11l_done}

-- Both bits of a mask of two are set where each is.
both_bits :
    (x : ℕ)
    → (bit_and x (bit_or kw11l_ie kw11l_done) == bit_or kw11l_ie kw11l_done)
      ≡ (tst x kw11l_ie && tst x kw11l_done)
both_bits x = ground (
  arith,
  bit_and_parts x 0o100 0o200 refl,
  bit_and_parts x 0o77 0o100 refl,
  bit_and_parts x 0o177 0o200 refl,
  bit_and_low 6 x,
  bit_and_low 7 x,
  bit_and_low 8 x,
)

-- The request of the clock as a test of the monitor bits leaves it.
request_of :
    (b : Bool) (c : Cpu)
    → tst (if b then set_int int_clk c else clr_int int_clk c).int_req (2 ^ int_clk) ≡ b
unfolding set_int clr_int
request_of true c = ap (λ t. not (t == 0)) (bit_or-bit_and c.int_req (2 ^ int_clk))
request_of false c = ap (λ t. not (t == 0)) (and_not-bit_and c.int_req (2 ^ int_clk))

same_csr :
    (b : Bool) (c : Cpu) → (if b then set_int int_clk c else clr_int int_clk c).clk_csr ≡ c.clk_csr
unfolding set_int clr_int
same_csr true c = refl
same_csr false c = refl

-- After any write of its register, the clock requests an interrupt exactly if both its enable bit
-- and its monitor bit are set.
pub clk_write-request :
    (value : ℕ) (c : Cpu)
    → tst (clk_write value c).int_req (2 ^ int_clk)
      ≡ (tst (clk_write value c).clk_csr kw11l_ie && tst (clk_write value c).clk_csr kw11l_done)
unfolding clk_write
clk_write-request value c =
    let c1 = record c {
      clk_csr = u16 (bit_or (and_not c.clk_csr kw11l_ie) (bit_and value kw11l_ie));
    } in
    let c2 =
      if tst value kw11l_done then c1 else record c1 { clk_csr = and_not c1.clk_csr kw11l_done } in
    let on = bit_and c2.clk_csr (bit_or kw11l_ie kw11l_done) == bit_or kw11l_ie kw11l_done in
    request_of on c2
    ∙ both_bits c2.clk_csr
    ∙ ap (λ t. tst t kw11l_ie && tst t kw11l_done) (sym (same_csr on c2))
