-- ===== src/Device/Tm11.antt =====
-- src/core/devices/tm11.c: the TM11 tape controller, over an image in the .tap format.
pub mod Status
pub mod Tape
pub mod Written
pub mod Records
use emulator_pdp.Prelude.{
  ℕ, zero, suc, ◌+◌, ◌*◌, bit_and, bit_or, bit_xor, and_not, tst, not, ltb, leb, ◌==◌, ◌&&◌, ◌||◌,
  if◌then◌else◌, ◌>>>◌, ◌<<<◌, u8, u16, u32, u64, sub32, Bool, true, false, Option,
}
use emulator_pdp.State.{Cpu, Tm11}
use emulator_pdp.Model.{is_attached}
use emulator_pdp.Interrupt.{set_int, clr_int, int_tm}
use emulator_pdp.Mmu.{unibus_map}
use emulator_pdp.Memory
use emulator_pdp.Device.Media.{media_get, media_set, count_of}

abbrev pub mtc_ie : ℕ
mtc_ie = 0o100

abbrev pub mtc_done : ℕ
mtc_done = 0o200

abbrev pub mtc_rw : ℕ
mtc_rw = 0o166576

abbrev pub sta_tur : ℕ
sta_tur = 0o1

abbrev pub sta_rew : ℕ
sta_rew = 0o2

abbrev pub sta_wlk : ℕ
sta_wlk = 0o4

abbrev pub sta_bot : ℕ
sta_bot = 0o40

abbrev pub sta_onl : ℕ
sta_onl = 0o100

abbrev pub sta_rle : ℕ
sta_rle = 0o1000

abbrev pub sta_eot : ℕ
sta_eot = 0o2000

abbrev pub sta_eof : ℕ
sta_eof = 0o40000

abbrev pub sta_ill : ℕ
sta_ill = 0o100000

abbrev pub sta_dyn : ℕ
sta_dyn = 0o42147

abbrev pub sta_eflgs : ℕ
sta_eflgs = 0o141200

abbrev pub no_record : ℕ
no_record = 0xffff_ffff

abbrev get_fnc : ℕ → ℕ
get_fnc x = bit_and (x >>> 1) 0o7

-- A byte of physical memory by its Unibus address.
unfoldable pub mem_read_byte : ℕ → Cpu → ℕ
mem_read_byte a c =
    let pa = unibus_map c a in
    let w = Memory.read_word c.mem (and_not pa 1) in
    u8 (if tst pa 1 then w >>> 8 else bit_and w 0o377)

unfoldable pub mem_write_byte : ℕ → ℕ → Cpu → Cpu
mem_write_byte a b c =
    let pa = unibus_map c a in
    let w = Memory.read_word c.mem (and_not pa 1) in
    let w' =
      if tst pa 1
      then u16 (bit_or (bit_and w 0o377) (b <<< 8))
      else u16 (bit_or (bit_and w 0o177400) b) in
    record c { mem = Memory.write_word c.mem (and_not pa 1) w' }

unfoldable pub tap_len_at : Tm11 → ℕ → ℕ
tap_len_at d at =
    let byte = λ (k : ℕ). media_get d.tape (u32 (at + k)) in
    if ltb d.tape_len (u32 (at + 4))
    then no_record
    else bit_or (bit_or (bit_or (byte 0) (byte 1 <<< 8)) (byte 2 <<< 16)) (byte 3 <<< 24)

unfoldable pub set_done : Cpu → Cpu
set_done c =
    let d = c.tm in
    let c1 = record c { tm = record d { busy = false; cmd = bit_or d.cmd mtc_done } } in
    if tst c1.tm.cmd mtc_ie then set_int int_tm c1 else clr_int int_tm c1

abbrev pub set_when : Bool → ℕ → ℕ → ℕ
set_when b flag s = if b then bit_or s flag else s

unfoldable pub status : Tm11 → ℕ
status d =
    let s = and_not d.sta sta_dyn in
    let s1 =
      if is_attached d.tape
      then set_when (leb d.tape_len d.pos) sta_eot
          (set_when d.wrp sta_wlk (set_when (d.pos == 0) sta_bot (bit_or s sta_onl)))
      else s in
    set_when (not d.busy) sta_tur s1

-- A record's data padded to an even length, with its two length words.
abbrev pub framed : ℕ → ℕ
framed len = u32 (4 + and_not (u32 (len + 1)) 1 + 4)

abbrev flag_error : ℕ → Cpu → Cpu
flag_error flag c = let d = c.tm in record c { tm = record d { sta = bit_or d.sta flag } }

-- The copy loops, at byte `i` with `left` to go.
unfoldable pub copy_in : ℕ → ℕ → ℕ → ℕ → Cpu → Cpu
copy_in xma from zero i c = c
copy_in xma from (suc left) i c =
    copy_in xma from left (i + 1)
      (mem_write_byte (bit_and (u32 (xma + i)) 0o777777) (media_get c.tm.tape (u32 (from + i))) c)

unfoldable pub put_tape : ℕ → ℕ → Cpu → Cpu
put_tape at b c = let d = c.tm in record c { tm = record d { tape = media_set d.tape at b } }

unfoldable pub copy_out : ℕ → ℕ → ℕ → ℕ → Cpu → Cpu
copy_out xma to zero i c = c
copy_out xma to (suc left) i c =
    copy_out xma to left (i + 1)
      (put_tape (u32 (to + i)) (mem_read_byte (bit_and (u32 (xma + i)) 0o777777) c) c)

-- The bus address and the byte count of the command in the registers.
abbrev pub bus_address : Tm11 → ℕ
bus_address d = bit_or (bit_and d.cmd 0o60 <<< 12) d.ca

abbrev pub byte_count : Tm11 → ℕ
byte_count d = bit_and (count_of d.bc) 0o177777

unfoldable pub read_record : Cpu → Cpu
unfolding copy_in
read_record c =
    let d = c.tm in
    let xma = bus_address d in
    let cbc = byte_count d in
    let rl = tap_len_at d d.pos in
    if rl == 0
    then record c { tm = record d { sta = bit_or d.sta sta_eof; pos = u32 (d.pos + 4) } }
    else if rl == no_record
    then flag_error sta_ill c
    else (let n = if ltb rl cbc then rl else cbc in
        let c1 = if ltb cbc rl then flag_error sta_rle c else c in
        let c2 = copy_in xma (u32 (d.pos + 4)) n 0 c1 in
        let d2 = c2.tm in
        record c2 {
          tm = record d2 {
            ca = u16 (bit_and (u32 (xma + n)) 0o177777);
            bc = u16 (bit_and (u32 (d2.bc + n)) 0o177777);
            pos = u32 (d2.pos + framed rl);
          };
        })

-- A length of at most 16 bits as four bytes of the image.
pub put_length : ℕ → ℕ → Cpu → Cpu
unfolding put_tape
put_length at len c = put_tape (u32 (at + 3)) 0 (
    put_tape (u32 (at + 2)) 0 (
      put_tape (u32 (at + 1)) (u8 (bit_and (len >>> 8) 0o377))
        (put_tape at (u8 (bit_and len 0o377)) c)))

unfoldable pub write_record : Cpu → Cpu
unfolding put_length copy_out
write_record c =
    let d = c.tm in
    let xma = bus_address d in
    let cbc = byte_count d in
    if d.wrp || ltb d.tape_len (u32 (d.pos + framed cbc))
    then flag_error sta_ill c
    else (let body = u32 (d.pos + 4) in
        let trailer = u32 (body + and_not (u32 (cbc + 1)) 1) in
        let c1 = copy_out xma body cbc 0 (put_length d.pos cbc c) in
        let c2 = if tst cbc 1 then put_tape (u32 (body + cbc)) 0 c1 else c1 in
        let c3 = put_length trailer cbc c2 in
        let d3 = c3.tm in
        record c3 {
          tm = record d3 {
            ca = u16 (bit_and (u32 (xma + cbc)) 0o177777);
            bc = 0;
            pos = u32 (trailer + 4);
          };
        })

unfoldable pub write_mark : Cpu → Cpu
unfolding put_length
write_mark c =
    let d = c.tm in
    if d.wrp || ltb d.tape_len (u32 (d.pos + 4))
    then flag_error sta_ill c
    else (let c1 = put_length d.pos 0 c in
        let d1 = c1.tm in record c1 { tm = record d1 { pos = u32 (d.pos + 4) } })

unfoldable pub space_forward : Cpu → Cpu
space_forward c =
    let d = c.tm in
    let rl = tap_len_at d d.pos in
    if rl == 0
    then record c { tm = record d { sta = bit_or d.sta sta_eof; pos = u32 (d.pos + 4) } }
    else if rl == no_record
    then flag_error sta_ill c
    else record c {
      tm = record d { pos = u32 (d.pos + framed rl); bc = u16 (bit_and (d.bc + 1) 0o177777) };
    }

unfoldable pub space_reverse : Cpu → Cpu
space_reverse c =
    let d = c.tm in
    if d.pos == 0
    then flag_error sta_bot c
    else (let tl = tap_len_at d (sub32 d.pos 4) in
        record c { tm = record d { pos = sub32 d.pos (if tl == 0 then 4 else framed tl) } })

unfoldable pub execute : ℕ → Cpu → Cpu
unfolding read_record write_record write_mark space_forward space_reverse
execute func c = set_done (
    if func == 1
    then read_record c
    else if func == 2 || func == 6
    then write_record c
    else if func == 3
    then write_mark c
    else if func == 4
    then space_forward c
    else if func == 5
    then space_reverse c
    else c)

unfoldable pub poll : Cpu → Cpu
unfolding execute
poll c =
    let d = c.tm in
    if not d.busy || ltb c.time_ns d.done_ns
    then c
    else (let func = get_fnc d.cmd in
        if func == 7 || func == 0
        then set_done (record c { tm = record d { pos = 0; sta = and_not d.sta sta_rew } })
        else execute func c)

unfoldable pub go : Cpu → Cpu
unfolding set_done
go c =
    let d = c.tm in
    let func = get_fnc d.cmd in
    let wr = func == 2 || func == 3 || func == 6 in
    if not (is_attached d.tape) || wr && d.wrp
    then set_done (flag_error sta_ill c)
    else (let c1 = clr_int int_tm (record c {
      tm = record d {
        sta = if func == 7 then bit_or 0 sta_rew else 0;
        cmd = and_not d.cmd mtc_done;
      };
    }) in
        let d1 = c1.tm in
        record c1 {
          tm = record d1 {
            busy = true;
            done_ns = u64 (c1.time_ns + 4000000 + byte_count d1 * 100);
          };
        })

unfoldable pub attach : Option (ℕ → ℕ) → ℕ → Bool → Cpu → Cpu
attach tape len wrp c =
    let d = c.tm in record c { tm = record d { tape = tape; tape_len = len; wrp = wrp; pos = 0 } }

unfoldable pub read : ℕ → Cpu → ℕ × Cpu
unfolding status
read addr c =
    let d = c.tm in
    if addr == 0o172520
    then (status d, c)
    else if addr == 0o172522
    then (
      (let cmd = and_not d.cmd 0o100000 in
          if tst (status d) sta_eflgs then bit_or cmd 0o100000 else cmd),
      c,
    )
    else if addr == 0o172524
    then (d.bc, c)
    else if addr == 0o172526
    then (d.ca, c)
    else if addr == 0o172530
    then (d.db, c)
    else if addr == 0o172532
    then (bit_xor d.rdl 0o100000, record c { tm = record d { rdl = bit_xor d.rdl 0o100000 } })
    else (0, c)

-- A write of MTC.
unfoldable pub write_mtc : ℕ → Cpu → Cpu
unfolding go
write_mtc value c =
    let d = c.tm in
    if tst value 0o10000
    then clr_int int_tm (record c {
      tm = record d { cmd = mtc_done; sta = 0; bc = 0; ca = 0; db = 0; busy = false };
    })
    else (let c1 =
          if not (tst value mtc_ie)
          then clr_int int_tm c
          else if bit_and d.cmd (bit_or mtc_done mtc_ie) == mtc_done
          then set_int int_tm c
          else c in
        let c2 = record c1 {
          tm = record d { cmd = u16 (bit_or (and_not d.cmd mtc_rw) (bit_and value mtc_rw)) };
        } in
        if tst c2.tm.cmd mtc_done && tst value 0o1 then go c2 else c2)

unfoldable pub write : ℕ → ℕ → Cpu → Cpu
unfolding write_mtc
write addr value c =
    let d = c.tm in
    if addr == 0o172522
    then write_mtc value c
    else if addr == 0o172524
    then record c { tm = record d { bc = value } }
    else if addr == 0o172526
    then record c { tm = record d { ca = value } }
    else if addr == 0o172530
    then record c { tm = record d { db = u16 (bit_and value 0o377) } }
    else c
