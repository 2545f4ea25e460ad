-- ===== src/IoPage.antt =====
-- src/core/cpu/cpu.c: the I/O page, its decode into registers and its bus timeout.
pub mod Maps
use emulator_pdp.Prelude.{
  ℕ, ◌+◌, ◌-◌, bit_and, bit_or, and_not, tst, not, leb, ◌==◌, ◌&&◌, ◌||◌, if◌then◌else◌, ◌>>>◌,
  ◌<<<◌, u16, u32, sub16, update, Bool, true, false, Option, none, some, List, [], ◌∷◌,
}
use emulator_pdp.State.{Cpu, model_eq, m1170}
use emulator_pdp.Monad.{M, Result, ok, cpu_bus_fault}
use emulator_pdp.Interrupt.{put_pirq, put_psw}
use emulator_pdp.Clk.{clk_read, clk_write}
use emulator_pdp.Console.{console_read, console_write}
use emulator_pdp.Mmu.{vec_bus, pdr_a, pdr_w}
use emulator_pdp.Device.Rk11
use emulator_pdp.Device.Rl11
use emulator_pdp.Device.Rp11
use emulator_pdp.Device.Tm11
use emulator_pdp.Device.Rx11

abbrev pub iopage_psw : ℕ
iopage_psw = 0o177776

abbrev pub iopage_pirq : ℕ
iopage_pirq = 0o177772

abbrev pub psw_t : ℕ
psw_t = 0o20

abbrev pub ubm_base : ℕ
ubm_base = 0o170200

abbrev pub ubm_end : ℕ
ubm_end = 0o170377

abbrev one_of : ℕ → List ℕ → Bool
one_of a [] = false
one_of a (x ∷ xs) = a == x || one_of a xs

record Block : Type 0 where
  base : ℕ
  is_par : Bool
  idx0 : ℕ

abbrev blocks : List Block
blocks =
    record { base = 0o172300; is_par = false; idx0 = 0 }
    ∷ record { base = 0o172320; is_par = false; idx0 = 8 }
    ∷ record { base = 0o172340; is_par = true; idx0 = 0 }
    ∷ record { base = 0o172360; is_par = true; idx0 = 8 }
    ∷ record { base = 0o172200; is_par = false; idx0 = 16 }
    ∷ record { base = 0o172220; is_par = false; idx0 = 24 }
    ∷ record { base = 0o172240; is_par = true; idx0 = 16 }
    ∷ record { base = 0o172260; is_par = true; idx0 = 24 }
    ∷ record { base = 0o177600; is_par = false; idx0 = 48 }
    ∷ record { base = 0o177620; is_par = false; idx0 = 56 }
    ∷ record { base = 0o177640; is_par = true; idx0 = 48 }
    ∷ record { base = 0o177660; is_par = true; idx0 = 56 }
    ∷ []

apr_search : ℕ → List Block → Option (Bool × ℕ)
apr_search a [] = none
apr_search a (b ∷ bs) =
    if leb b.base a && leb a (u16 (b.base + 0o16))
    then some (b.is_par, b.idx0 + (a - b.base >>> 1))
    else apr_search a bs

unfoldable pub apr_index : ℕ → Option (Bool × ℕ)
unfolding apr_search
apr_index a = apr_search a blocks

abbrev pub ubm_slot : ℕ → ℕ
ubm_slot a = bit_and (u32 (sub16 a ubm_base) >>> 2) 0o37

unfoldable pub ubm_read : Cpu → ℕ → ℕ
ubm_read c a =
    let off = sub16 a ubm_base in
    let pg = ubm_slot a in
    if tst off 2
    then u16 (bit_and (c.ub_map pg >>> 16) 0o77)
    else u16 (bit_and (c.ub_map pg) 0o177776)

unfoldable pub ubm_write : ℕ → ℕ → Cpu → Cpu
ubm_write a value c =
    let off = sub16 a ubm_base in
    let pg = ubm_slot a in
    let old = c.ub_map pg in
    let new =
      if tst off 2
      then bit_or (bit_and old 0o177777) (bit_and value 0o77 <<< 16)
      else bit_or (and_not old 0o177777) (bit_and value 0o177776) in
    record c { ub_map = update c.ub_map pg (bit_and new 0o17777776) }

abbrev sysreg_number : ℕ → ℕ
sysreg_number a = bit_and (a >>> 1) 0o17

abbrev in_sysregs : ℕ → Bool
in_sysregs a = leb 0o177740 a && leb a 0o177774

-- The register block by number; `none` for a register that is decoded elsewhere.
sysreg_value : ℕ → Cpu → Option ℕ
sysreg_value n c =
    if one_of n (0 ∷ 1 ∷ 4 ∷ 0o11 ∷ [])
    then some 0
    else if n == 2
    then some c.memerr
    else if n == 3
    then some c.ccr
    else if n == 5
    then some c.hitmiss
    else if n == 0o10
    then some (sub16 (u16 (c.cfg.mem_top >>> 6)) 1)
    else if n == 0o12
    then some 0o11064
    else if n == 0o13
    then some (u16 (bit_and c.cpuerr 0o374))
    else if n == 0o14
    then some c.mbrk
    else if n == 0o16
    then some (u16 (bit_and c.stklim 0o177400))
    else none

unfoldable pub sysreg_read : ℕ → Cpu → Option ℕ
unfolding sysreg_value
sysreg_read a c =
    if not (model_eq c.cfg.model m1170)
    then none
    else if a == 0o177570
    then some c.sr
    else if in_sysregs a
    then sysreg_value (sysreg_number a) c
    else none

sysreg_store : ℕ → ℕ → Cpu → Option Cpu
sysreg_store n value c =
    if one_of n (0 ∷ 1 ∷ 4 ∷ 5 ∷ 0o10 ∷ 0o11 ∷ 0o12 ∷ [])
    then some c
    else if n == 2
    then some (record c { memerr = u16 (and_not c.memerr value) })
    else if n == 3
    then some (record c { ccr = value })
    else if n == 0o13
    then some (record c { cpuerr = 0 })
    else if n == 0o14
    then some (record c { mbrk = u16 (bit_and value 0o377) })
    else if n == 0o16
    then some (record c { stklim = u16 (bit_and value 0o177400) })
    else none

unfoldable pub sysreg_write : ℕ → ℕ → Cpu → Option Cpu
unfolding sysreg_store
sysreg_write a value c =
    if not (model_eq c.cfg.model m1170)
    then none
    else if a == 0o177570
    then some (record c { dr = value })
    else if in_sysregs a
    then sysreg_store (sysreg_number a) value c
    else none

abbrev console_regs : List ℕ
console_regs = 0o177560 ∷ 0o177562 ∷ 0o177564 ∷ 0o177566 ∷ []

abbrev rk_regs : List ℕ
rk_regs = 0o177400 ∷ 0o177402 ∷ 0o177404 ∷ 0o177406 ∷ 0o177410 ∷ 0o177412 ∷ 0o177414 ∷ 0o177416 ∷ []

abbrev tm_regs : List ℕ
tm_regs = 0o172520 ∷ 0o172522 ∷ 0o172524 ∷ 0o172526 ∷ 0o172530 ∷ 0o172532 ∷ []

abbrev rl_regs : List ℕ
rl_regs = 0o174400 ∷ 0o174402 ∷ 0o174404 ∷ 0o174406 ∷ []

abbrev rx_regs : List ℕ
rx_regs = 0o177170 ∷ 0o177172 ∷ []

abbrev in_rp : ℕ → Bool
in_rp a = leb Rp11.rp_csr a && leb a Rp11.rp_end

-- A read that returns a value with the state.
abbrev from_pair : ℕ × Cpu → Result ℕ
from_pair (v, c) = ok v c

-- The part of `io_read` below its switch.
io_read_rest : ℕ → M ℕ
io_read_rest a c = elim (apr_index a) [
  | some (is_par, idx) ↦ ok (if is_par then c.par idx else c.pdr idx) c
  | none ↦ elim (sysreg_read a c) [ some v ↦ ok v c | none ↦ cpu_bus_fault vec_bus c ]
]

-- The device registers of the switch.
io_read_device : ℕ → M ℕ
unfolding io_read_rest
io_read_device a c =
    if a == 0o177546
    then ok (clk_read c) c
    else if one_of a console_regs
    then from_pair (console_read a c)
    else if one_of a rk_regs
    then ok (Rk11.read a c) c
    else if one_of a tm_regs
    then from_pair (Tm11.read a c)
    else if one_of a rl_regs
    then from_pair (Rl11.read a c)
    else if one_of a rx_regs
    then from_pair (Rx11.read a c)
    else if in_rp a
    then ok (Rp11.read a c) c
    else io_read_rest a c

unfoldable pub io_read : ℕ → M ℕ
unfolding io_read_device
io_read a c =
    if c.cfg.has_ubm && leb ubm_base a && leb a ubm_end
    then ok (ubm_read c a) c
    else if a == iopage_psw
    then ok c.psw c
    else if a == iopage_pirq
    then ok c.pirq c
    else if a == 0o177572
    then ok c.mmr0 c
    else if a == 0o177574
    then ok c.mmr1 c
    else if a == 0o177576
    then ok c.mmr2 c
    else if a == 0o172516
    then ok c.mmr3 c
    else io_read_device a c

-- An explicit store to the PSW: the T bit is kept on the models without EXPT.
unfoldable pub write_psw : ℕ → Cpu → Cpu
write_psw value c =
    let value' =
      if c.cfg.has_expt then value else u16 (bit_or (and_not value psw_t) (bit_and c.psw psw_t)) in
    let c1 = put_psw value' c in record c1 { cc_frozen = true }

unfoldable pub write_apr : Bool → ℕ → ℕ → Cpu → Cpu
write_apr is_par idx value c =
    if is_par
    then record c { par = update c.par idx (u16 (bit_and value c.cfg.par_mask)) }
    else record c {
      pdr = update c.pdr idx (u16 (and_not (bit_and value c.cfg.pdr_mask) (bit_or pdr_a pdr_w)));
    }

io_write_rest : ℕ → ℕ → M (Unit {0})
unfolding write_apr
io_write_rest a value c = elim (apr_index a) [
  | some (is_par, idx) ↦ ok tt (write_apr is_par idx value c)
  | none ↦ elim (sysreg_write a value c) [ some c' ↦ ok tt c' | none ↦ cpu_bus_fault vec_bus c ]
]

io_write_device : ℕ → ℕ → M (Unit {0})
unfolding io_write_rest
io_write_device a value c =
    if a == 0o177546
    then ok tt (clk_write value c)
    else if one_of a console_regs
    then ok tt (console_write a value c)
    else if one_of a rk_regs
    then ok tt (Rk11.write a value c)
    else if one_of a tm_regs
    then ok tt (Tm11.write a value c)
    else if one_of a rl_regs
    then ok tt (Rl11.write a value c)
    else if one_of a rx_regs
    then ok tt (Rx11.write a value c)
    else if in_rp a
    then ok tt (Rp11.write a value c)
    else io_write_rest a value c

unfoldable pub io_write : ℕ → ℕ → M (Unit {0})
unfolding io_write_device write_psw
io_write a value c =
    if c.cfg.has_ubm && leb ubm_base a && leb a ubm_end
    then ok tt (ubm_write a value c)
    else if a == iopage_psw
    then ok tt (write_psw value c)
    else if a == iopage_pirq
    then ok tt (put_pirq value c)
    else if a == 0o177572
    then ok tt (record c { mmr0 = u16 (bit_and value c.cfg.mmr0_mask) })
    else if a == 0o172516
    then ok tt (record c { mmr3 = u16 (bit_and value c.cfg.mmr3_mask) })
    else io_write_device a value c
