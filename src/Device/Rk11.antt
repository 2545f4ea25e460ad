-- ===== src/Device/Rk11.antt =====
-- src/core/devices/rk11.c: the RK11 disk controller.
pub mod Written
pub mod Phases
pub mod Registers
use emulator_pdp.Prelude.{
  ℕ, zero, suc, ◌+◌, ◌-◌, ◌*◌, ◌/◌, ◌%◌, bit_and, bit_or, and_not, tst, not, ltb, leb, ◌==◌, ◌&&◌,
  ◌||◌, if◌then◌else◌, ◌>>>◌, ◌<<<◌, u16, u32, u64, sub32, true, false, Option,
}
use emulator_pdp.State.{Cpu, Rk11}
use emulator_pdp.Model.{is_attached}
use emulator_pdp.Interrupt.{set_int, clr_int, int_rk}
use emulator_pdp.Mmu.{unibus_map}
use emulator_pdp.Memory
use emulator_pdp.Device.Media.{media_get, media_set, count_of, rounds}

abbrev pub rkcs_done : ℕ
rkcs_done = 0o200

abbrev pub rkcs_ie : ℕ
rkcs_ie = 0o100

abbrev pub rkcs_mex : ℕ
rkcs_mex = 0o60

abbrev pub rkcs_inh : ℕ
rkcs_inh = 0o4000

abbrev pub rkcs_scp : ℕ
rkcs_scp = 0o20000

abbrev pub rkcs_herr : ℕ
rkcs_herr = 0o40000

abbrev pub rkcs_err : ℕ
rkcs_err = 0o100000

abbrev pub rkcs_real : ℕ
rkcs_real = 0o26776

abbrev pub rkcs_rw : ℕ
rkcs_rw = 0o6576

abbrev pub rker_nxs : ℕ
rker_nxs = 0o40

abbrev pub rker_nxc : ℕ
rker_nxc = 0o100

abbrev pub rker_nxd : ℕ
rker_nxd = 0o200

abbrev pub rker_ovr : ℕ
rker_ovr = 0o40000

abbrev pub rker_hard : ℕ
rker_hard = 0o177740

abbrev pub rk_numwd : ℕ
rk_numwd = 256

abbrev pub rk_numsc : ℕ
rk_numsc = 12

abbrev pub rk_numcy : ℕ
rk_numcy = 203

abbrev pub func_write : ℕ
func_write = 1

abbrev pub func_read : ℕ
func_read = 2

abbrev pub func_wchk : ℕ
func_wchk = 3

abbrev get_sect : ℕ → ℕ
get_sect x = bit_and x 0o17

abbrev get_track : ℕ → ℕ
get_track x = bit_and (x >>> 4) 0o777

abbrev get_cyl : ℕ → ℕ
get_cyl x = bit_and (x >>> 5) 0o377

unfoldable pub set_error : ℕ → Rk11 → Rk11
set_error err d =
    let d1 = record d { rker = bit_or d.rker err; rkcs = bit_or d.rkcs rkcs_err } in
    if tst d1.rker rker_hard then record d1 { rkcs = bit_or d1.rkcs rkcs_herr } else d1

unfoldable pub finish : Cpu → Cpu
finish c =
    let d = c.rk in
    let c1 = record c { rk = record d { busy = false; rkcs = bit_or d.rkcs rkcs_done } } in
    if tst c1.rk.rkcs rkcs_ie then set_int int_rk c1 else clr_int int_rk c1

-- One round of the transfer loop.
unfoldable pub transfer_word : ℕ → ℕ → ℕ → ℕ → Cpu → Cpu
unfolding set_error
transfer_word func ma da i c =
    let d = c.rk in
    let mem = unibus_map c (u32 (ma + i * 2)) in
    if func == func_read
    then record c { mem = Memory.write_word c.mem mem (media_get d.disk (da + i)) }
    else if func == func_write
    then record c {
      rk = record d { disk = media_set d.disk (da + i) (Memory.read_word c.mem mem) };
    }
    else if func == func_wchk && not (Memory.read_word c.mem mem == media_get d.disk (da + i))
    then record c { rk = set_error 0o1 d }
    else c

-- The loop, at round `i` with `left` rounds to go.
unfoldable pub transfer_from : ℕ → ℕ → ℕ → ℕ → ℕ → Cpu → Cpu
transfer_from func ma da zero i c = c
transfer_from func ma da (suc left) i c =
    transfer_from func ma da left (i + 1) (transfer_word func ma da i c)

-- The bus address and the first disk word of the command in the registers.
abbrev pub bus_address : Rk11 → ℕ
bus_address d = bit_or (bit_and d.rkcs rkcs_mex <<< 12) d.rkba

abbrev pub disk_address : Rk11 → ℕ
disk_address d = (get_track d.rkda * rk_numsc + get_sect d.rkda) * rk_numwd

-- The registers after a transfer of `wc` words.
abbrev pub advance : ℕ → ℕ → ℕ → Rk11 → Rk11
advance ma da wc d =
    let ma' = if tst d.rkcs rkcs_inh then ma else u32 (ma + u32 (wc * 2)) in
    let da' = u32 (da + wc + (rk_numwd - 1)) in
    let track = da' / rk_numwd / rk_numsc in
    let sect = da' / rk_numwd % rk_numsc in
    record d {
      rkwc = u16 (u32 (d.rkwc + wc));
      rkba = u16 (bit_and ma' 0o177776);
      rkcs = u16 (bit_or (and_not d.rkcs rkcs_mex) (bit_and (ma' >>> 12) rkcs_mex));
      rkda = u16 (bit_or (bit_or (bit_and d.rkda 0o160000) (track <<< 4)) sect);
    }

unfoldable pub transfer : ℕ → Cpu → Cpu
unfolding transfer_from set_error
transfer func c =
    let d = c.rk in
    let ma = bus_address d in
    let da = disk_address d in
    let wanted = count_of d.rkwc in
    let over = ltb d.disk_words (u32 (da + wanted)) in
    let wc = if over then sub32 d.disk_words da else wanted in
    let c1 = record c { rk = if over then set_error rker_ovr d else d } in
    let c2 = transfer_from func ma da (rounds wc) 0 c1 in record c2 { rk = advance ma da wc c2.rk }

abbrev fail : ℕ → Cpu → Cpu
fail err c = finish (record c { rk = set_error err c.rk })

-- The end of `rk_go`: the transfer, if any, now, and its completion later.
unfoldable pub start : ℕ → Cpu → Cpu
unfolding transfer
start func c =
    let wc = count_of c.rk.rkwc in
    let c1 =
      if func == func_read || func == func_write || func == func_wchk then transfer func c else c in
    let d1 = c1.rk in
    record c1 { rk = record d1 { busy = true; done_ns = u64 (c1.time_ns + 1000000 + wc * 100) } }

unfoldable pub go : Cpu → Cpu
unfolding start
go c =
    let d = c.rk in
    let func = bit_and d.rkcs 0o16 >>> 1 in
    if func == 0
    then clr_int int_rk (record c {
      rk = record d { rker = 0; rkda = 0; rkba = 0; rkcs = rkcs_done; busy = false };
    })
    else (let d1 = record d { rkcs = and_not (and_not d.rkcs rkcs_scp) rkcs_done } in
        let c1 = clr_int int_rk (record c { rk = d1 }) in
        let is_reset = func == 6 in
        let sect = if is_reset then 0 else get_sect d1.rkda in
        let cyl = if is_reset then 0 else get_cyl d1.rkda in
        if not (is_attached d1.disk) || tst d1.rkda 0o160000
        then fail rker_nxd c1
        else if func == 7
        then finish c1
        else if leb rk_numsc sect
        then fail rker_nxs c1
        else if leb rk_numcy cyl
        then fail rker_nxc c1
        else start (if is_reset then 4 else func) c1)

unfoldable pub poll : Cpu → Cpu
unfolding finish
poll c = if c.rk.busy && leb c.rk.done_ns c.time_ns then finish c else c

unfoldable pub attach : Option (ℕ → ℕ) → ℕ → Cpu → Cpu
attach disk words c = let d = c.rk in record c { rk = record d { disk = disk; disk_words = words } }

unfoldable pub read : ℕ → Cpu → ℕ
read addr c =
    let d = c.rk in
    if addr == 0o177402
    then d.rker
    else if addr == 0o177404
    then (let cs = bit_and d.rkcs rkcs_real in
        let cs1 = if d.rker == 0 then cs else bit_or cs rkcs_err in
        if tst d.rker rker_hard then bit_or cs1 rkcs_herr else cs1)
    else if addr == 0o177406
    then d.rkwc
    else if addr == 0o177410
    then bit_and d.rkba 0o177776
    else if addr == 0o177412
    then d.rkda
    else if addr == 0o177400
    then d.rkds
    else 0

-- A write of RKCS.
unfoldable pub write_rkcs : ℕ → Cpu → Cpu
unfolding go
write_rkcs value c =
    let d0 = c.rk in
    let d = record d0 { rkcs = bit_and d0.rkcs rkcs_real } in
    let c1 = record c { rk = d } in
    let c2 =
      if not (tst value rkcs_ie)
      then clr_int int_rk c1
      else if bit_and d.rkcs (bit_or rkcs_done rkcs_ie) == rkcs_done
      then set_int int_rk c1
      else c1 in
    let c3 = record c2 {
      rk = record d { rkcs = u16 (bit_or (and_not d.rkcs rkcs_rw) (bit_and value rkcs_rw)) };
    } in
    if tst c3.rk.rkcs rkcs_done && tst value 0o1 then go c3 else c3

unfoldable pub write : ℕ → ℕ → Cpu → Cpu
unfolding write_rkcs
write addr value c =
    let d = c.rk in
    if addr == 0o177404
    then write_rkcs value c
    else if addr == 0o177406
    then record c { rk = record d { rkwc = value } }
    else if addr == 0o177410
    then record c { rk = record d { rkba = u16 (bit_and value 0o177776) } }
    else if addr == 0o177412
    then if tst d.rkcs rkcs_done then record c { rk = record d { rkda = value } } else c
    else c
