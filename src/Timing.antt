-- ===== src/Timing.antt =====
-- src/core/timing: KB11-C instruction times, in nanoseconds with every read a cache hit.
pub mod Bounds
use emulator_pdp.Prelude.{
  ℕ, zero, suc, ◌+◌, bit_and, tst, not, leb, ◌==◌, ◌&&◌, ◌||◌, if◌then◌else◌, ◌>>>◌, Bool, true,
  false, List, [], ◌∷◌,
}

pub record Timing : Type 0 where
  pub ns : ℕ
  pub read_cycles : ℕ

abbrev pub add : Timing → Timing → Timing
add a b = record { ns = a.ns + b.ns; read_cycles = a.read_cycles + b.read_cycles }

abbrev pub mk : ℕ → ℕ → Timing
mk ns cyc = record { ns = ns; read_cycles = cyc }

-- Entry `i` of a table by addressing mode.
abbrev pub entry : List ℕ → ℕ → ℕ
entry [] i = 0
entry (x ∷ xs) zero = x
entry (x ∷ xs) (suc i) = entry xs i

abbrev pub addr_ns : ℕ → ℕ
addr_ns = entry (0 ∷ 300 ∷ 300 ∷ 750 ∷ 450 ∷ 900 ∷ 600 ∷ 1050 ∷ [])

abbrev pub addr_cyc : ℕ → ℕ
addr_cyc = entry (0 ∷ 1 ∷ 1 ∷ 2 ∷ 1 ∷ 2 ∷ 2 ∷ 3 ∷ [])

abbrev pub address : ℕ → Timing
address mode = mk (addr_ns mode) (addr_cyc mode)

pub data Class : Type 0 where
  mov_class add_class cmp_class xor_class : Class
  single_std single_neg single_tst single_shift other : Class

-- MOV has its own table.
ef_mov : ℕ → ℕ → ℕ → Timing
ef_mov smode dmode dreg =
    if dmode == 0 && dreg == 7
    then mk (if smode == 0 then 600 else 750) 1
    else mk
        (if smode == 0
          then entry (300 ∷ 1200 ∷ 1200 ∷ 1650 ∷ 1350 ∷ 1800 ∷ 1500 ∷ 1950 ∷ []) dmode
          else entry (450 ∷ 1200 ∷ 1200 ∷ 1650 ∷ 1350 ∷ 1800 ∷ 1650 ∷ 2100 ∷ []) dmode)
        (entry (1 ∷ 1 ∷ 1 ∷ 2 ∷ 1 ∷ 2 ∷ 2 ∷ 3 ∷ []) dmode)

abbrev is_xor : Class → Bool
is_xor xor_class = true
is_xor _ = false

abbrev memory_ns : Class → ℕ
memory_ns cmp_class = 450
memory_ns _ = 1200

ef_rest : Class → ℕ → ℕ → ℕ → ℕ → Timing
ef_rest cls smode sreg dmode dreg =
    if dmode == 0
    then add
        (mk (if is_xor cls then 300 else if smode == 0 then 300 else 450)
          (if smode == 0 then 1 else 2))
        (mk (if dreg == 7 then 300 else 0) 0)
    else mk
        (memory_ns cls + (if smode == 0 && leb 1 sreg && (dreg == 6 || dreg == 7) then 150 else 0))
        1

unfoldable pub ef_double : Class → ℕ → ℕ → ℕ → ℕ → Timing
unfolding ef_mov ef_rest
ef_double mov_class smode sreg dmode dreg = ef_mov smode dmode dreg
ef_double cls smode sreg dmode dreg = ef_rest cls smode sreg dmode dreg

unfoldable pub ef_single : Class → ℕ → ℕ → Bool → Timing
ef_single single_std dmode dreg bytemode =
    mk (if dmode == 0 then (if dreg == 7 then 600 else 300) else 1200) 1
ef_single single_neg dmode dreg bytemode = mk (if dmode == 0 then 750 else 1500) 1
ef_single single_tst dmode dreg bytemode = mk (if dmode == 0 then 300 else 450) 1
ef_single single_shift dmode dreg bytemode =
    mk (if dmode == 0 then (if dreg == 7 then 600 else 300) else if bytemode then 1350 else 1200) 1
ef_single _ dmode dreg bytemode = mk 300 1

unfoldable pub classify_double : ℕ → Class
classify_double top =
    if top == 0o1 || top == 0o11
    then mov_class
    else if top == 0o2 || top == 0o12 || top == 0o3 || top == 0o13
    then cmp_class
    else if top == 0o4 || top == 0o14 || top == 0o5 || top == 0o15 || top == 0o6 || top == 0o16
    then add_class
    else other

abbrev bits3 : ℕ → ℕ → ℕ
bits3 word shift = bit_and (word >>> shift) 0o7

double_timing : ℕ → ℕ → Timing
unfolding ef_double classify_double
double_timing word top =
    let smode = bits3 word 9 in
    let dmode = bits3 word 3 in
    let bytemode = leb 0o11 top && leb top 0o15 in
    let cls = if top == 0o11 then add_class else classify_double top in
    let dst =
      if not (top == 0o1)
      then add (address dmode) (mk (if bytemode && not (dmode == 0) then 150 else 0) 0)
      else mk 0 0 in
    add (add (address smode) dst) (ef_double cls smode (bits3 word 6) dmode (bits3 word 0))

eis_timing : ℕ → Timing
eis_timing word =
    let dmode = bits3 word 3 in
    let op = bits3 word 9 in
    let ef =
      if op == 0
      then 3300
      else if op == 4
      then (if dmode == 0 then 300 else 1200)
      else if op == 1
      then 900
      else if op == 2
      then 750
      else 900 in
    add (address dmode) (mk ef 1)

single_class : ℕ → Class
single_class base =
    if base == 0o54
    then single_neg
    else if base == 0o57
    then single_tst
    else if base == 0o60 || base == 0o62
    then single_shift
    else single_std

-- The words that are neither double-operand, nor a jump, nor EIS, nor floating point.
single_timing : ℕ → Timing
unfolding ef_single single_class
single_timing word =
    let code = bit_and (word >>> 6) 0o1777 in
    let base = bit_and code 0o777 in
    let bytemode = tst code 0o1000 in
    let dmode = bits3 word 3 in
    if base == 0o65
    then add (address dmode) (mk 1500 1)
    else if base == 0o66
    then mk (entry (900 ∷ 1650 ∷ 1650 ∷ 2100 ∷ 1800 ∷ 2250 ∷ 2100 ∷ 2550 ∷ []) dmode)
        (entry (1 ∷ 2 ∷ 2 ∷ 3 ∷ 2 ∷ 3 ∷ 3 ∷ 4 ∷ []) dmode)
    else if leb 0o50 base && leb base 0o67
    then add (add (address dmode) (mk (if bytemode && not (dmode == 0) then 150 else 0) 0))
        (ef_single (single_class base) dmode (bits3 word 0) bytemode)
    else mk 300 1

unfoldable pub instr_timing : ℕ → Timing
unfolding double_timing eis_timing single_timing
instr_timing word =
    let top = bit_and (word >>> 12) 0o17 in
    let dmode = bits3 word 3 in
    if leb 0o1 top && leb top 0o6 || leb 0o11 top && leb top 0o16
    then double_timing word top
    else if bit_and word 0o177700 == 0o100
    then mk (entry (0 ∷ 900 ∷ 900 ∷ 1200 ∷ 900 ∷ 1350 ∷ 1050 ∷ 1500 ∷ []) dmode)
        (entry (0 ∷ 1 ∷ 1 ∷ 2 ∷ 1 ∷ 2 ∷ 2 ∷ 3 ∷ []) dmode)
    else if bit_and word 0o177000 == 0o4000
    then mk (entry (0 ∷ 1950 ∷ 1950 ∷ 2250 ∷ 1950 ∷ 2400 ∷ 2100 ∷ 2550 ∷ []) dmode)
        (entry (0 ∷ 1 ∷ 1 ∷ 2 ∷ 1 ∷ 2 ∷ 2 ∷ 3 ∷ []) dmode)
    else if top == 0o7
    then eis_timing word
    else if top == 0o17
    then add (mk 450 1) (address dmode)
    else single_timing word
