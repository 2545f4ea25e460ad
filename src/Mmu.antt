-- ===== src/Mmu.antt =====
-- src/core/cpu/cpu.c: the KT11 memory management, the Unibus map and the installed-memory check.
pub mod Pages
pub mod Addresses
pub mod Faults
pub mod Aborts
use emulator_pdp.Prelude.{
  ℕ, ◌+◌, bit_and, bit_or, and_not, tst, not, ltb, leb, ◌==◌, ◌&&◌, ◌||◌, if◌then◌else◌, ◌>>>◌,
  ◌<<<◌, u16, u32, bool_to_ℕ, update, Bool,
}
use emulator_pdp.State.{Cpu}
use emulator_pdp.Monad.{M, cpu_bus_fault, ok}

abbrev pub vec_bus : ℕ
vec_bus = 0o4

abbrev pub vec_mme : ℕ
vec_mme = 0o250

abbrev pub mmr0_mme : ℕ
mmr0_mme = 0o1

abbrev pub mmr0_page : ℕ
mmr0_page = 0o176

abbrev pub mmr0_ro : ℕ
mmr0_ro = 0o20000

abbrev pub mmr0_pl : ℕ
mmr0_pl = 0o40000

abbrev pub mmr0_nr : ℕ
mmr0_nr = 0o100000

abbrev pub mmr0_freeze : ℕ
mmr0_freeze = 0o160000

abbrev pub mmr3_m22e : ℕ
mmr3_m22e = 0o20

abbrev pub mmr3_bme : ℕ
mmr3_bme = 0o40

abbrev pub pdr_acf : ℕ
pdr_acf = 0o7

abbrev pub pdr_ed : ℕ
pdr_ed = 0o10

abbrev pub pdr_w : ℕ
pdr_w = 0o100

abbrev pub pdr_a : ℕ
pdr_a = 0o200

abbrev pub pdr_plf : ℕ
pdr_plf = 0o77400

abbrev pub pamask22 : ℕ
pamask22 = 0o17777777

abbrev pub iopage_top : ℕ
iopage_top = 0o17760000

unfoldable pub acf_violation : ℕ → Bool → ℕ
acf_violation acf is_write =
    if is_write
    then (if acf == 4 || acf == 5 || acf == 6 then 0 else if acf == 2 then mmr0_ro else mmr0_nr)
    else if acf == 1 || acf == 2 || acf == 4 || acf == 5 || acf == 6
    then 0
    else mmr0_nr

-- The D-space enable bits of MMR3 by mode, kernel, supervisor, none and user.
abbrev pub dsmask : ℕ → ℕ
dsmask mode = if mode == 0 then 0o4 else if mode == 1 then 0o2 else if mode == 2 then 0 else 0o1

-- Which PAR/PDR pair a reference goes through.
unfoldable pub apr_of : Cpu → ℕ → ℕ → Bool → ℕ
apr_of c va mode dspace =
    let ds = bool_to_ℕ (dspace && tst c.mmr3 (dsmask mode)) in
    bit_or (bit_or (mode <<< 4) (ds <<< 3)) (bit_and (va >>> 13) 0o7)

-- The error bits of a reference through the descriptor `pdr`, 0 if it is permitted.
unfoldable pub page_error : ℕ → ℕ → Bool → ℕ
unfolding acf_violation
page_error pdr va is_write =
    let err = acf_violation (bit_and pdr pdr_acf) is_write in
    let dbn = u16 (bit_and va 0o17700) in
    let plf = u16 (bit_and pdr pdr_plf >>> 2) in
    if (if tst pdr pdr_ed then ltb dbn plf else ltb plf dbn) then bit_or err mmr0_pl else err

-- The page and the error go into MMR0 unless an earlier fault froze it.
abbrev pub capture : ℕ → ℕ → Cpu → Cpu
capture idx err c =
    if tst c.mmr0 mmr0_freeze
    then c
    else record c { mmr0 = bit_or (u16 (bit_or (and_not c.mmr0 mmr0_page) (idx <<< 1))) err }

-- The descriptor after an access that is permitted.
abbrev pub accessed : ℕ → Bool → Cpu → Cpu
accessed idx is_write c =
    let c1 = record c { pdr = update c.pdr idx (bit_or (c.pdr idx) pdr_a) } in
    if is_write then record c1 { pdr = update c1.pdr idx (bit_or (c1.pdr idx) pdr_w) } else c1

abbrev pub relocated : Cpu → ℕ → ℕ → ℕ
relocated c idx va =
    let pa = bit_and (u32 (bit_and va 0o17777 + (c.par idx <<< 6))) pamask22 in
    if tst c.mmr3 mmr3_m22e
    then pa
    else let pa18 = bit_and pa 0o777777 in
      if leb 0o760000 pa18 then bit_or 0o17000000 pa18 else pa18

-- Management off: the low 56 KB unchanged, the top 8 KB onto the I/O page.
abbrev pub unmapped : ℕ → ℕ
unmapped va = let pa = bit_and va 0o177777 in if leb 0o160000 pa then bit_or 0o17600000 pa else pa

unfoldable pub mmu_relocate : ℕ → Bool → ℕ → Bool → M ℕ
unfolding apr_of page_error
mmu_relocate va is_write mode dspace c =
    if tst c.mmr0 mmr0_mme
    then (let idx = apr_of c va mode dspace in
        let err = page_error (c.pdr idx) va is_write in
        let c1 = accessed idx is_write c in
        if not (err == 0)
        then cpu_bus_fault vec_mme (capture idx err c)
        else ok (relocated c1 idx va) c1)
    else ok (unmapped va) c

unfoldable pub is_iopage : ℕ → Bool
is_iopage pa = leb iopage_top pa

unfoldable pub unibus_map : Cpu → ℕ → ℕ
unibus_map c uba =
    if not c.cfg.has_ubm || not (tst c.mmr3 mmr3_bme)
    then bit_and uba 0o777777
    else let pg = bit_and (uba >>> 13) 0o37 in
      let off = bit_and uba 0o17777 in
      if pg == 0o37
      then bit_and (u32 (iopage_top + off)) pamask22
      else bit_and (u32 (c.ub_map pg + off)) pamask22

unfoldable pub check_nxm : ℕ → M (Unit {0})
check_nxm pa c = if leb c.cfg.mem_top pa then cpu_bus_fault vec_bus c else ok tt c
