-- ===== src/Device/Rp11.antt =====
-- src/core/devices/rp11.c: the RH70 Massbus adapter with an RP04 drive.
use emulator_pdp.Prelude.{
  ℕ, zero, suc, ◌+◌, ◌-◌, ◌*◌, ◌/◌, ◌%◌, bit_and, bit_or, and_not, tst, not, ltb, leb, ◌==◌, ◌&&◌,
  ◌||◌, if◌then◌else◌, ◌>>>◌, ◌<<<◌, u16, u32, u64, true, false, Option, none, some,
}
use emulator_pdp.State.{Cpu, Rp11}
use emulator_pdp.Model.{is_attached}
use emulator_pdp.Interrupt.{set_int, clr_int, int_rp}
use emulator_pdp.Memory
use emulator_pdp.Device.Media.{media_get, media_set, count_of, rounds}

abbrev pub cs1_done : ℕ
cs1_done = 0o200

abbrev pub cs1_ie : ℕ
cs1_ie = 0o100

abbrev pub rp_csr : ℕ
rp_csr = 0o176700

abbrev pub rp_end : ℕ
rp_end = 0o176752

abbrev pub rp_numwd : ℕ
rp_numwd = 256

abbrev pub rp_sect : ℕ
rp_sect = 22

abbrev pub rp_surf : ℕ
rp_surf = 19

abbrev pub fnc_write : ℕ
fnc_write = 0o30

abbrev pub fnc_read : ℕ
fnc_read = 0o34

-- A register of the adapter, or of the drive.
pub data Selector : Type 0 where
  adapter : ℕ → Selector
  drive : ℕ → Selector

-- `rp_mapofs`, by word offset.
abbrev mapofs : ℕ → Selector
mapofs w =
    if w == 0
    then adapter 0
    else if w == 1
    then adapter 1
    else if w == 2
    then adapter 2
    else if w == 3
    then drive 5
    else if w == 4
    then adapter 3
    else if w == 5
    then drive 1
    else if w == 6
    then drive 2
    else if w == 7
    then drive 4
    else if w == 8
    then drive 7
    else if w == 9
    then adapter 4
    else if w == 10
    then drive 3
    else if w == 11
    then drive 6
    else drive (w - 4)

unfoldable pub finish : Cpu → Cpu
finish c =
    let d = c.rp in
    let c1 = record c {
      rp = record d { busy = false; cs1 = bit_or d.cs1 cs1_done; ds = bit_or d.ds 0o100000 };
    } in
    if tst c1.rp.cs1 cs1_ie then set_int int_rp c1 else clr_int int_rp c1

unfoldable pub drive_status : Rp11 → ℕ
drive_status d =
    let ds = bit_or d.ds 0o400 in
    if is_attached d.disk
    then if d.busy then bit_or ds 0o10000 else bit_or (bit_or ds 0o10000) 0o200
    else ds

-- One round of the transfer loop; the memory address of the next round comes with the state.
unfoldable pub transfer_word : ℕ → ℕ → ℕ → ℕ × Cpu → ℕ × Cpu
transfer_word func da i (ma, c) =
    let d = c.rp in
    let mem = bit_and ma 0o3777777 in
    let ma' = if tst d.cs2 0o10 then ma else u32 (ma + 2) in
    if func == fnc_read
    then (ma', record c { mem = Memory.write_word c.mem mem (media_get d.disk (da + i)) })
    else if func == fnc_write
    then (
      ma',
      record c { rp = record d { disk = media_set d.disk (da + i) (Memory.read_word c.mem mem) } },
    )
    else (ma', c)

unfoldable pub transfer_from : ℕ → ℕ → ℕ → ℕ → ℕ × Cpu → ℕ × Cpu
transfer_from func da zero i s = s
transfer_from func da (suc left) i s =
    transfer_from func da left (i + 1) (transfer_word func da i s)

-- The registers after a transfer of `wc` words that ended at the memory address `ma`.
abbrev pub advance : ℕ → ℕ → ℕ → Rp11 → Rp11
advance ma da wc d =
    let blk = u32 (da / rp_numwd + (wc + rp_numwd - 1) / rp_numwd) in
    let cy = u16 (blk / rp_sect / rp_surf) in
    record d {
      wc = u16 (u32 (d.wc + wc));
      ba = u16 (bit_and ma 0o177777);
      bae = u16 (bit_and (ma >>> 16) 0o77);
      da = u16 (bit_or (blk / rp_sect % rp_surf <<< 8) (blk % rp_sect));
      dc = cy;
      cc = cy;
    }

unfoldable pub transfer : ℕ → Cpu → Cpu
unfolding transfer_from transfer_word
transfer func c =
    let d = c.rp in
    let ma = bit_or (bit_and d.bae 0o77 <<< 16) d.ba in
    let cylinder = bit_and d.dc 0o1777 in
    let surface = bit_and (d.da >>> 8) 0o77 in
    let da = u32 (((cylinder * rp_surf + surface) * rp_sect + bit_and d.da 0o77) * rp_numwd) in
    let wanted = count_of d.wc in
    let wc =
      if leb d.disk_words da
      then 0
      else if ltb d.disk_words (u32 (da + wanted))
      then d.disk_words - da
      else wanted in
    let (ma', c1) = transfer_from func da (rounds wc) 0 (ma, c) in
    record c1 { rp = advance ma' da wc c1.rp }

unfoldable pub go : Cpu → Cpu
unfolding transfer finish
go c =
    let d = c.rp in
    let func = bit_and (d.cs1 >>> 1) 0o37 in
    let d1 = record d { cs1 = and_not d.cs1 cs1_done } in
    let c1 = clr_int int_rp (record c { rp = d1 }) in
    if func == 0o4
    then finish (record c1 { rp = record d1 { er1 = 0; ds = and_not d1.ds 0o100000 } })
    else if func == 0o10 || func == 0o11
    then finish (record c1 { rp = record d1 { ds = bit_or d1.ds 0o100 } })
    else if func == 0o14
    then record c1 {
      rp = record d1 { cc = d1.dc; busy = true; done_ns = u64 (c1.time_ns + 2000000) };
    }
    else if func == fnc_read || func == fnc_write || func == 0o24
    then (let wc = count_of d1.wc in
        let c2 = if func == 0o24 then c1 else transfer func c1 in
        let d2 = c2.rp in
        record c2 {
          rp = record d2 { busy = true; done_ns = u64 (c2.time_ns + 2000000 + wc * 100) };
        })
    else finish c1

unfoldable pub poll : Cpu → Cpu
unfolding finish
poll c = if c.rp.busy && leb c.rp.done_ns c.time_ns then finish c else c

unfoldable pub attach : Option (ℕ → ℕ) → ℕ → Cpu → Cpu
attach disk words c = let d = c.rp in record c { rp = record d { disk = disk; disk_words = words } }

-- `none` for the -1 of `rp_reg_sel`.
unfoldable pub reg_sel : ℕ → Option Selector
reg_sel addr =
    if ltb addr rp_csr || ltb rp_end addr then none else some (mapofs (addr - rp_csr >>> 1))

read_selected : Selector → Rp11 → ℕ
unfolding drive_status
read_selected (drive k) d =
    if k == 1
    then drive_status d
    else if k == 2
    then d.er1
    else if k == 5
    then d.da
    else if k == 6
    then 0o20020
    else if k == 10
    then d.dc
    else if k == 11
    then d.cc
    else 0
read_selected (adapter k) d =
    if k == 0
    then bit_or d.cs1 0o4000
    else if k == 1
    then d.wc
    else if k == 2
    then d.ba
    else if k == 3
    then d.cs2
    else if k == 5
    then d.bae
    else 0

unfoldable pub read : ℕ → Cpu → ℕ
unfolding reg_sel read_selected
read addr c =
    if addr == 0o176750
    then bit_and c.rp.bae 0o77
    else if addr == 0o176752
    then 0
    else elim (reg_sel addr) [ none ↦ 0 | some sel ↦ read_selected sel c.rp ]

-- A write of CS1.
unfoldable pub write_cs1 : ℕ → Cpu → Cpu
unfolding go
write_cs1 value c =
    let d = c.rp in
    let c1 =
      if not (tst value cs1_ie)
      then clr_int int_rp c
      else if bit_and d.cs1 (bit_or cs1_done cs1_ie) == cs1_done
      then set_int int_rp c
      else c in
    let c2 = record c1 {
      rp = record d { cs1 = u16 (bit_or (and_not d.cs1 0o176) (bit_and value 0o176)) };
    } in
    if tst c2.rp.cs1 cs1_done && tst value 0o1 then go c2 else c2

-- A write of CS2.
write_cs2 : ℕ → Cpu → Cpu
write_cs2 value c =
    let d = c.rp in
    if tst value 0o40
    then clr_int int_rp
        (record c { rp = record d { cs1 = cs1_done; er1 = 0; busy = false; cs2 = value } })
    else record c { rp = record d { cs2 = value } }

write_selected : Selector → ℕ → Cpu → Cpu
unfolding write_cs1 write_cs2
write_selected (drive k) value c =
    let d = c.rp in
    if k == 5
    then record c { rp = record d { da = u16 (and_not value 0o140300) } }
    else if k == 10
    then record c { rp = record d { dc = u16 (and_not value 0o176000) } }
    else c
write_selected (adapter k) value c =
    let d = c.rp in
    if k == 0
    then write_cs1 value c
    else if k == 1
    then record c { rp = record d { wc = value } }
    else if k == 2
    then record c { rp = record d { ba = value } }
    else if k == 3
    then write_cs2 value c
    else if k == 5
    then record c { rp = record d { bae = u16 (bit_and value 0o77) } }
    else c

unfoldable pub write : ℕ → ℕ → Cpu → Cpu
unfolding reg_sel write_selected
write addr value c =
    let d = c.rp in
    if addr == 0o176750
    then record c { rp = record d { bae = u16 (bit_and value 0o77) } }
    else if addr == 0o176752
    then c
    else elim (reg_sel addr) [ none ↦ c | some sel ↦ write_selected sel value c ]
