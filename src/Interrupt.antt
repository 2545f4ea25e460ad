-- ===== src/Interrupt.antt =====
-- src/core/cpu/cpu.c: interrupt requests, PIRQ, and the PSW with its banked registers.
pub mod Levels
pub mod Banks
use emulator_pdp.Prelude.{
  ℕ, zero, suc, ◌+◌, ◌^◌, bit_and, bit_or, and_not, tst, ltb, ◌==◌, ◌&&◌, if◌then◌else◌, ◌<<<◌, u16,
  field, update, Option, none, some,
}
use emulator_pdp.State.{Cpu}

-- The interrupt ids, the bits of `int_req`.
abbrev pub int_clk : ℕ
int_clk = 0

abbrev pub int_tti : ℕ
int_tti = 1

abbrev pub int_tto : ℕ
int_tto = 2

abbrev pub int_rk : ℕ
int_rk = 3

abbrev pub int_rp : ℕ
int_rp = 4

abbrev pub int_tm : ℕ
int_tm = 5

abbrev pub int_rl : ℕ
int_rl = 6

abbrev pub int_rx : ℕ
int_rx = 7

abbrev pub num_int : ℕ
num_int = 8

-- The two columns of `int_tab`.
abbrev pub int_ipl : ℕ → ℕ
int_ipl dev = if dev == 0 then 6 else if dev == 1 then 4 else if dev == 2 then 4 else 5

abbrev pub int_vec : ℕ → ℕ
int_vec dev =
    if dev == 0
    then 0o100
    else if dev == 1
    then 0o60
    else if dev == 2
    then 0o64
    else if dev == 3
    then 0o220
    else if dev == 4
    then 0o254
    else if dev == 5
    then 0o224
    else if dev == 6
    then 0o160
    else 0o264

unfoldable pub set_int : ℕ → Cpu → Cpu
set_int dev c = record c { int_req = bit_or c.int_req (2 ^ dev) }

unfoldable pub clr_int : ℕ → Cpu → Cpu
clr_int dev c = record c { int_req = and_not c.int_req (2 ^ dev) }

-- The loop of `highest_pir_level`, from `level` down.
highest_pir_from : ℕ → ℕ → ℕ
highest_pir_from zero pirq = 0
highest_pir_from (suc level) pirq =
    if tst pirq (u16 (2 ^ (suc level + 8))) then suc level else highest_pir_from level pirq

unfoldable pub highest_pir_level : ℕ → ℕ
unfolding highest_pir_from
highest_pir_level pirq = highest_pir_from 7 pirq

-- The loop of `highest_int`, with `left` ids to go; `best` is `none` for -1.
highest_int_from : ℕ → ℕ → ℕ → Option ℕ → ℕ → Option ℕ × ℕ
highest_int_from int_req zero d best bestipl = (best, bestipl)
highest_int_from int_req (suc left) d best bestipl =
    let better = tst int_req (2 ^ d) && ltb bestipl (int_ipl d) in
    highest_int_from int_req left (d + 1) (if better then some d else best)
      (if better then int_ipl d else bestipl)

unfoldable pub highest_int : Cpu → Option ℕ × ℕ
unfolding highest_int_from
highest_int c = highest_int_from c.int_req num_int 0 none 0

unfoldable pub put_pirq : ℕ → Cpu → Cpu
put_pirq value c =
    let req = u16 (bit_and value 0o177000) in
    let level = highest_pir_level req in
    let encoded = if level == 0 then 0 else u16 (bit_or (level <<< 5) (level <<< 1)) in
    record c { pirq = u16 (bit_or req encoded) }

-- The loop that swaps R0 to R5 with the other set, at every index at once.
bank_registers : ℕ → ℕ → Cpu → Cpu
bank_registers old_rs new_rs c = if new_rs == old_rs then c else record c {
  regfile = λ i. if ltb i 6 then update (c.regfile i) old_rs (c.r i) else c.regfile i;
  r = λ i. if ltb i 6 then c.regfile i new_rs else c.r i;
}

bank_stack : ℕ → ℕ → Cpu → Cpu
bank_stack old_cm new_cm c = if new_cm == old_cm then c else record c {
  stackfile = update c.stackfile old_cm (c.r 6);
  r = update c.r 6 (update c.stackfile old_cm (c.r 6) new_cm);
}

unfoldable pub put_psw : ℕ → Cpu → Cpu
unfolding bank_registers bank_stack
put_psw value c =
    let new_psw = u16 (bit_and value c.cfg.psw_mask) in
    let c1 = bank_registers (field c.psw 11 1) (field new_psw 11 1) c in
    let c2 = bank_stack (field c.psw 14 2) (field new_psw 14 2) c1 in record c2 { psw = new_psw }

unfoldable pub cur_mode : Cpu → ℕ
cur_mode c = field c.psw 14 2
