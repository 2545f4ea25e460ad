-- ===== src/Device/Rx11.antt =====
-- src/core/devices/rx11.c: the RX11 floppy controller, a state machine over the 128-byte buffer.
pub mod Bounds
pub mod Safety
pub mod Sector
use emulator_pdp.Prelude.{
  ℕ, ◌+◌, ◌-◌, ◌*◌, bit_and, bit_or, and_not, tst, not, ltb, leb, ◌==◌, ◌&&◌, ◌||◌, if◌then◌else◌,
  ◌>>>◌, u8, u16, update, Option, none, some,
}
use emulator_pdp.State.{Cpu, Rx11}
use emulator_pdp.Model.{is_attached}
use emulator_pdp.Interrupt.{set_int, clr_int, int_rx}
use emulator_pdp.Device.Media.{media_get}

abbrev pub rxcs_done : ℕ
rxcs_done = 0o40

abbrev pub rxcs_ie : ℕ
rxcs_ie = 0o100

abbrev pub rxcs_tr : ℕ
rxcs_tr = 0o200

abbrev pub rxcs_err : ℕ
rxcs_err = 0o100000

abbrev pub rx_numtr : ℕ
rx_numtr = 77

abbrev pub rx_numsc : ℕ
rx_numsc = 26

abbrev pub rx_numby : ℕ
rx_numby = 128

abbrev pub st_idle : ℕ
st_idle = 0

abbrev pub st_rwds : ℕ
st_rwds = 1

abbrev pub st_rwdt : ℕ
st_rwdt = 2

abbrev pub st_rwxfr : ℕ
st_rwxfr = 3

abbrev pub st_fill : ℕ
st_fill = 4

abbrev pub st_empty : ℕ
st_empty = 5

abbrev pub st_cmddone : ℕ
st_cmddone = 6

abbrev pub func_of : Rx11 → ℕ
func_of d = bit_and (d.rxcs >>> 1) 0o7

-- `rx_done`; `none` stands for a negative error code.
unfoldable pub complete : ℕ → Option ℕ → Cpu → Cpu
complete esr_flags new_ecode c =
    let d = c.rx in
    let c1 = record c { rx = record d { state = st_idle; rxcs = bit_or d.rxcs rxcs_done } } in
    let c2 = if tst c1.rx.rxcs rxcs_ie then set_int int_rx c1 else c1 in
    let d2 = c2.rx in
    let es = u8 (and_not (bit_or d2.rxes esr_flags) 0o200) in
    let es1 = if is_attached d2.disk then bit_or es 0o200 else es in
    elim new_ecode [
      | none ↦ record c2 { rx = record d2 { rxes = es1 } }
      | some e ↦ record c2 {
        rx = record d2 {
          rxes = es1;
          rxcs = if ltb 0 e then bit_or d2.rxcs rxcs_err else d2.rxcs;
          ecode = u8 e;
          rxdb = es1;
        };
      }
    ]

-- The first byte of the sector that the command names.
abbrev pub sector_start : Rx11 → ℕ
sector_start d = (d.track * rx_numsc + (d.sector - 1)) * rx_numby

-- The loop that fills the buffer from the disk, at every index at once.
abbrev pub load_sector : Rx11 → Rx11
load_sector d = record d {
  buf = λ i. if ltb i rx_numby then media_get d.disk (sector_start d + i) else d.buf i;
}

abbrev pub put_sector : Option (ℕ → ℕ) → ℕ → (ℕ → ℕ) → Option (ℕ → ℕ)
put_sector none da buf = none
put_sector (some m) da buf =
    some (λ j. if leb da j && ltb j (da + rx_numby) then buf (j - da) else m j)

abbrev pub store_sector : Rx11 → Rx11
store_sector d = record d { disk = put_sector d.disk (sector_start d) d.buf }

-- The state ST_RWXFR.
unfoldable pub transfer : Cpu → Cpu
unfolding complete
transfer c =
    let d = c.rx in
    let func = func_of d in
    if not (is_attached d.disk)
    then complete 0 (some 0o110) c
    else if leb rx_numtr d.track
    then complete 0 (some 0o40) c
    else (let d1 = record d { cur_track = d.track } in
        if d1.sector == 0 || ltb rx_numsc d1.sector
        then complete 0 (some 0o70) (record c { rx = d1 })
        else (let d2 = if func == 6 then record d1 { rxes = bit_or d1.rxes 0o100 } else d1 in
            let d3 = if func == 3 then load_sector d2 else store_sector d2 in
            complete 0 (some 0) (record c { rx = d3 })))

-- The states ST_EMPTY and ST_FILL.
unfoldable pub empty_step : Cpu → Cpu
unfolding complete
empty_step c =
    let d = c.rx in
    if leb rx_numby d.bptr then complete 0 (some 0) c else record c {
      rx = record d { rxdb = d.buf d.bptr; bptr = u8 (d.bptr + 1); rxcs = bit_or d.rxcs rxcs_tr };
    }

unfoldable pub fill_step : Cpu → Cpu
unfolding complete
fill_step c =
    let d0 = c.rx in
    let d = record d0 { buf = update d0.buf d0.bptr d0.rxdb; bptr = u8 (d0.bptr + 1) } in
    if ltb d.bptr rx_numby
    then record c { rx = record d { rxcs = bit_or d.rxcs rxcs_tr } }
    else complete 0 (some 0) (record c { rx = d })

-- `rx_step`. Its one recursive call, from ST_RWDT, is a call of the ST_RWXFR case.
unfoldable pub step : Cpu → Cpu
unfolding empty_step fill_step transfer
step c =
    let d = c.rx in
    if d.state == st_empty
    then empty_step c
    else if d.state == st_fill
    then fill_step c
    else if d.state == st_rwds
    then record c {
      rx = record d {
        sector = u8 (bit_and d.rxdb 0o177);
        rxcs = bit_or d.rxcs rxcs_tr;
        state = st_rwdt;
      };
    }
    else if d.state == st_rwdt
    then transfer (record c { rx = record d { track = d.rxdb; state = st_rwxfr } })
    else if d.state == st_rwxfr
    then transfer c
    else if d.state == st_cmddone
    then if func_of d == 7
      then complete 0 none (record c { rx = record d { rxdb = d.ecode } })
      else complete 0 (some 0) c
    else c

unfoldable pub reset_state : Cpu → Cpu
reset_state c =
    let d = c.rx in
    let es = bit_or 0o4 (if is_attached d.disk then 0o200 else 0) in
    clr_int int_rx (record c {
      rx = record d {
        rxcs = rxcs_done;
        rxes = es;
        rxdb = es;
        ecode = 0;
        state = st_idle;
        bptr = 0;
      };
    })

unfoldable pub read : ℕ → Cpu → ℕ × Cpu
unfolding step
read addr c =
    let d = c.rx in
    if addr == 0o177170 then (u16 (bit_and d.rxcs 0o100340), c) else (
      d.rxdb,
      if d.state == st_empty && tst d.rxcs rxcs_tr
          then step (record c { rx = record d { rxcs = and_not d.rxcs rxcs_tr } })
          else c,
    )

-- A function is launched by a write of RXCS with GO set.
unfoldable pub launch : ℕ → Cpu → Cpu
unfolding step
launch value c =
    let d0 = c.rx in
    let d = record d0 { rxcs = u16 (bit_and value 0o136); bptr = 0 } in
    let func = func_of d in
    if func == 0
    then record c { rx = record d { state = st_fill; rxcs = bit_or d.rxcs rxcs_tr } }
    else if func == 1
    then step (record c { rx = record d { state = st_empty } })
    else if func == 3 || func == 2 || func == 6
    then record c {
      rx = record d {
        state = st_rwds;
        rxcs = bit_or d.rxcs rxcs_tr;
        rxes = u8 (bit_and d.rxes 0o4);
      };
    }
    else step (record c { rx = record d { state = st_cmddone } })

write_rxcs : ℕ → Cpu → Cpu
unfolding launch reset_state
write_rxcs value c =
    let d = c.rx in
    if tst value 0o40000
    then reset_state c
    else if tst value 0o1 && d.state == st_idle
    then launch value c
    else (let c1 =
          if not (tst value rxcs_ie)
          then clr_int int_rx c
          else if bit_and d.rxcs (bit_or rxcs_done rxcs_ie) == rxcs_done
          then set_int int_rx c
          else c in
        record c1 {
          rx = record d { rxcs = u16 (bit_or (and_not d.rxcs rxcs_ie) (bit_and value rxcs_ie)) };
        })

unfoldable pub write : ℕ → ℕ → Cpu → Cpu
unfolding write_rxcs step
write addr value c =
    let d0 = c.rx in
    if addr == 0o177170
    then write_rxcs value c
    else if not (d0.state == st_idle) && tst d0.rxcs rxcs_tr
    then (let d = record d0 { rxdb = u8 (bit_and value 0o377) } in
        if d.state == st_empty
        then record c { rx = d }
        else step (record c { rx = record d { rxcs = and_not d.rxcs rxcs_tr } }))
    else c

unfoldable pub attach : Option (ℕ → ℕ) → ℕ → Cpu → Cpu
attach disk bytes c = let d = c.rx in record c { rx = record d { disk = disk; disk_bytes = bytes } }
