-- ===== src/Device/Rl11.antt =====
-- src/core/devices/rl11.c: the RL11 disk controller.
use emulator_pdp.Prelude.{
  ℕ, zero, suc, ◌+◌, ◌-◌, ◌*◌, ◌/◌, bit_and, bit_or, and_not, tst, not, ltb, leb, ◌==◌, ◌&&◌, ◌||◌,
  if◌then◌else◌, ◌>>>◌, ◌<<<◌, u16, u32, u64, sub32, Bool, true, false, Option,
}
use emulator_pdp.State.{Cpu, Rl11}
use emulator_pdp.Model.{is_attached}
use emulator_pdp.Interrupt.{set_int, clr_int, int_rl}
use emulator_pdp.Mmu.{unibus_map}
use emulator_pdp.Memory
use emulator_pdp.Device.Media.{media_get, media_set, count_of, rounds}

abbrev pub rlcs_drdy : ℕ
rlcs_drdy = 0o1

abbrev pub rlcs_mex : ℕ
rlcs_mex = 0o60

abbrev pub rlcs_ie : ℕ
rlcs_ie = 0o100

abbrev pub rlcs_done : ℕ
rlcs_done = 0o200

abbrev pub rlcs_incmp : ℕ
rlcs_incmp = 0o2000

abbrev pub rlcs_crc : ℕ
rlcs_crc = 0o4000

abbrev pub rlcs_dre : ℕ
rlcs_dre = 0o40000

abbrev pub rlcs_err : ℕ
rlcs_err = 0o100000

abbrev pub rlcs_rw : ℕ
rlcs_rw = 0o1776

-- INCMP, CRC, DLT, NXM and DRE together, and with the summary bit.
abbrev pub rlcs_errors : ℕ
rlcs_errors = 0o76000

abbrev pub rlcs_allerr : ℕ
rlcs_allerr = 0o176000

abbrev pub rl_numwd : ℕ
rl_numwd = 128

abbrev pub rl_numsc : ℕ
rl_numsc = 40

abbrev pub rl_numcy : ℕ
rl_numcy = 256

abbrev pub rl01_words : ℕ
rl01_words = rl_numcy * 2 * rl_numsc * rl_numwd

abbrev get_sect : ℕ → ℕ
get_sect x = bit_and x 0o77

abbrev get_track : ℕ → ℕ
get_track x = bit_and (x >>> 6) 0o1777

abbrev get_cyl : ℕ → ℕ
get_cyl x = bit_and (x >>> 7) 0o777

abbrev is_rl02 : Rl11 → Bool
is_rl02 d = ltb rl01_words d.disk_words

unfoldable pub finish : ℕ → Cpu → Cpu
finish status c =
    let d = c.rl in
    let cs = bit_or d.rlcs (bit_or (bit_or status rlcs_done) rlcs_drdy) in
    let cs1 = if tst status rlcs_errors then bit_or cs rlcs_err else cs in
    let c1 = record c { rl = record d { busy = false; rlcs = cs1 } } in
    if tst cs1 rlcs_ie then set_int int_rl c1 else clr_int int_rl c1

-- One round of the transfer loop, with the status gathered so far.
unfoldable pub transfer_word : ℕ → ℕ → ℕ → ℕ → ℕ × Cpu → ℕ × Cpu
transfer_word func ma da i (status, c) =
    let d = c.rl in
    let mem = unibus_map c (u32 (ma + i * 2)) in
    if func == 6 || func == 7
    then (status, record c { mem = Memory.write_word c.mem mem (media_get d.disk (da + i)) })
    else if func == 5
    then (
      status,
      record c { rl = record d { disk = media_set d.disk (da + i) (Memory.read_word c.mem mem) } },
    )
    else if func == 1 && not (Memory.read_word c.mem mem == media_get d.disk (da + i))
    then (bit_or status (bit_or rlcs_err rlcs_crc), c)
    else (status, c)

unfoldable pub transfer_from : ℕ → ℕ → ℕ → ℕ → ℕ → ℕ × Cpu → ℕ × Cpu
transfer_from func ma da zero i s = s
transfer_from func ma da (suc left) i s =
    transfer_from func ma da left (i + 1) (transfer_word func ma da i s)

unfoldable pub transfer : ℕ → Cpu → ℕ × Cpu
unfolding transfer_from transfer_word
transfer func c =
    let d = c.rl in
    let ma = bit_or (bit_and d.rlcs rlcs_mex <<< 12) d.rlba in
    let da = (get_track d.rlda * rl_numsc + get_sect d.rlda) * rl_numwd in
    let maxwc = u32 (sub32 rl_numsc (get_sect d.rlda) * rl_numwd) in
    let wanted = count_of d.rlmp in
    let wc0 = if ltb maxwc wanted then maxwc else wanted in
    let off_end = ltb d.disk_words (u32 (da + wc0)) in
    let wc = if off_end then (if ltb da d.disk_words then d.disk_words - da else 0) else wc0 in
    let (st, c1) =
      transfer_from func ma da (rounds wc) 0
        (if off_end then bit_or rlcs_err rlcs_incmp else 0, c) in
    let d1 = c1.rl in
    let mp = u16 (u32 (d1.rlmp + wc)) in
    let ma' = u32 (ma + u32 (wc * 2)) in
    let rlda' = u16 (d1.rlda + (wc + rl_numwd - 1) / rl_numwd) in
    (
      if mp == 0 then st else bit_or st (bit_or rlcs_err rlcs_incmp),
      record c1 {
        rl = record d1 {
          rlmp = mp;
          rlba = u16 (bit_and ma' 0o177777);
          rlcs = u16 (bit_or (and_not d1.rlcs rlcs_mex) (bit_and (ma' >>> 16) 0o3 <<< 4));
          rlda = rlda';
          trk = rlda';
        };
      },
    )

-- GET STATUS of an attached drive.
get_status : Cpu → Cpu
unfolding finish
get_status c =
    let d = c.rl in
    if not (tst d.rlda 0o2)
    then finish rlcs_incmp c
    else (let ds = bit_or (bit_or (bit_or 5 0o10) 0o20) (bit_and d.trk 0o100) in
        finish 0
          (record c { rl = record d { rlmp = u16 (if is_rl02 d then bit_or ds 0o200 else ds) } }))

-- The cylinder that a SEEK ends on, kept within the drive.
abbrev pub seek_target : Rl11 → ℕ
seek_target d =
    let curr = get_cyl d.trk in
    let offs = get_cyl d.rlda in
    let maxc = if is_rl02 d then rl_numcy * 2 else rl_numcy in
    if tst d.rlda 0o4
    then if leb maxc (curr + offs) then maxc - 1 else curr + offs
    else if ltb curr offs
    then 0
    else if leb maxc (curr - offs)
    then maxc - 1
    else curr - offs

schedule : ℕ → Cpu → Cpu
schedule extra c =
    let d = c.rl in
    record c { rl = record d { busy = true; done_ns = u64 (c.time_ns + 2000000 + extra) } }

unfoldable pub seek : Cpu → Cpu
unfolding schedule
seek c =
    let d = c.rl in
    let hd = if tst d.rlda 0o20 then 0o100 else 0 in
    schedule 0 (record c { rl = record d { trk = u16 (bit_or (seek_target d <<< 7) hd) } })

-- READ, RNOHDR, WRITE and WCHK. The delay counts the words that the transfer left in RLMP.
unfoldable pub data_command : ℕ → Cpu → Cpu
unfolding transfer schedule
data_command func c =
    let (st, c1) = transfer func c in
    let c2 = schedule (count_of c1.rl.rlmp * 100) c1 in
    let d2 = c2.rl in
    record c2 { rl = record d2 { rlcs = bit_or d2.rlcs (u16 (and_not st rlcs_done)) } }

unfoldable pub go : Cpu → Cpu
unfolding get_status seek data_command
go c =
    let d = c.rl in
    let func = bit_and d.rlcs 0o16 >>> 1 in
    let d1 = record d { rlcs = and_not d.rlcs rlcs_done } in
    let c1 = clr_int int_rl (record c { rl = d1 }) in
    if not (is_attached d1.disk)
    then finish (bit_or rlcs_incmp rlcs_dre) c1
    else if func == 0
    then finish 0 c1
    else if func == 2
    then get_status c1
    else if func == 3
    then seek c1
    else if func == 4
    then schedule 0 (record c1 { rl = record d1 { rlmp = d1.trk } })
    else data_command func c1

unfoldable pub read : ℕ → Cpu → ℕ × Cpu
read addr c =
    let d = c.rl in
    if addr == 0o174400
    then (let ready = is_attached d.disk && not d.busy in
        let cs = if ready then bit_or d.rlcs rlcs_drdy else and_not d.rlcs rlcs_drdy in
        let cs1 = if tst cs rlcs_errors then bit_or cs rlcs_err else cs in
        let c1 = record c { rl = record d { rlcs = cs1 } } in (cs1, c1))
    else if addr == 0o174402
    then (d.rlba, c)
    else if addr == 0o174404
    then (d.rlda, c)
    else if addr == 0o174406
    then (d.rlmp, c)
    else (0, c)

-- A write of RLCS: with DONE set no command, else the command.
unfoldable pub write_rlcs : ℕ → Cpu → Cpu
unfolding go
write_rlcs value c =
    let d = c.rl in
    let cs = u16 (bit_or (and_not d.rlcs rlcs_rw) (bit_and value rlcs_rw)) in
    let bae = u16 (bit_or (and_not d.rlbae 0o3) (bit_and (cs >>> 4) 0o3)) in
    let d1 = record d { rlcs = cs; rlbae = bae } in
    let c1 = record c { rl = d1 } in
    if tst value rlcs_done
    then (if not (tst value rlcs_ie)
        then clr_int int_rl c1
        else if tst cs rlcs_done
        then set_int int_rl c1
        else c1)
    else go (clr_int int_rl (record c1 { rl = record d1 { rlcs = and_not cs rlcs_allerr } }))

unfoldable pub write : ℕ → ℕ → Cpu → Cpu
unfolding write_rlcs
write addr value c =
    let d = c.rl in
    if addr == 0o174400
    then write_rlcs value c
    else if addr == 0o174402
    then record c { rl = record d { rlba = u16 (bit_and value 0o177776) } }
    else if addr == 0o174404
    then record c { rl = record d { rlda = value } }
    else if addr == 0o174406
    then record c { rl = record d { rlmp = value } }
    else c

unfoldable pub attach : Option (ℕ → ℕ) → ℕ → Cpu → Cpu
attach disk words c = let d = c.rl in record c { rl = record d { disk = disk; disk_words = words } }

unfoldable pub poll : Cpu → Cpu
unfolding finish
poll c = if c.rl.busy && leb c.rl.done_ns c.time_ns then finish 0 c else c
