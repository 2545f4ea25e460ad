-- ===== src/Timing/Bounds.antt =====
-- The times of `pdp11_instr_timing` (src/core/timing/timing.c) from below.
use emulator_pdp.Prelude.{
  ℕ, zero, suc, ◌≤◌, ◌<◌, bit_and, tst, leb, ◌==◌, ◌&&◌, ◌||◌, Bool, true, false, ◌≡◌, List, [],
  ◌∷◌, arith, if◌then◌else◌, refl, ◌>>>◌,
}
use emulator_pdp.Bits.{bit_and-le}
use emulator_pdp.Timing.{
  entry, Class, ef_mov, ef_rest, ef_double, ef_single, classify_double, double_timing, eis_timing,
  single_class, single_timing, instr_timing,
}

abbrev size : List ℕ → ℕ
size [] = 0
size (x ∷ xs) = suc (size xs)

abbrev at_least : ℕ → List ℕ → Bool
at_least k [] = true
at_least k (x ∷ xs) = leb k x && at_least k xs

entry-at_least : (k : ℕ) (xs : List ℕ) (i : ℕ) → at_least k xs ≡ true → i < size xs → k ≤ entry xs i
entry-at_least k [] i h lt = absurd (omega arith)
entry-at_least k (x ∷ xs) zero h lt = ground arith
entry-at_least k (x ∷ xs) (suc i) h lt = entry-at_least k xs i (ground arith) (omega arith)

mov_lower : (smode dmode dreg : ℕ) → dmode < 8 → 300 ≤ (ef_mov smode dmode dreg).ns
unfolding ef_mov
mov_lower smode dmode dreg h = ground (
  arith,
  entry-at_least 300 (300 ∷ 1200 ∷ 1200 ∷ 1650 ∷ 1350 ∷ 1800 ∷ 1500 ∷ 1950 ∷ []) dmode refl h,
  entry-at_least 300 (450 ∷ 1200 ∷ 1200 ∷ 1650 ∷ 1350 ∷ 1800 ∷ 1650 ∷ 2100 ∷ []) dmode refl h,
)

rest_lower :
    (cls : Class) (smode sreg dmode dreg : ℕ) → 300 ≤ (ef_rest cls smode sreg dmode dreg).ns
unfolding ef_rest
rest_lower Class.cmp_class smode sreg dmode dreg = ground arith
rest_lower Class.xor_class smode sreg dmode dreg = ground arith
rest_lower Class.mov_class smode sreg dmode dreg = ground arith
rest_lower Class.add_class smode sreg dmode dreg = ground arith
rest_lower Class.single_std smode sreg dmode dreg = ground arith
rest_lower Class.single_neg smode sreg dmode dreg = ground arith
rest_lower Class.single_tst smode sreg dmode dreg = ground arith
rest_lower Class.single_shift smode sreg dmode dreg = ground arith
rest_lower Class.other smode sreg dmode dreg = ground arith

double_lower :
    (cls : Class) (smode sreg dmode dreg : ℕ)
    → dmode < 8
    → 300 ≤ (ef_double cls smode sreg dmode dreg).ns
unfolding ef_double
double_lower Class.mov_class smode sreg dmode dreg h = mov_lower smode dmode dreg h
double_lower Class.cmp_class smode sreg dmode dreg h =
    rest_lower Class.cmp_class smode sreg dmode dreg
double_lower Class.xor_class smode sreg dmode dreg h =
    rest_lower Class.xor_class smode sreg dmode dreg
double_lower Class.add_class smode sreg dmode dreg h =
    rest_lower Class.add_class smode sreg dmode dreg
double_lower Class.single_std smode sreg dmode dreg h =
    rest_lower Class.single_std smode sreg dmode dreg
double_lower Class.single_neg smode sreg dmode dreg h =
    rest_lower Class.single_neg smode sreg dmode dreg
double_lower Class.single_tst smode sreg dmode dreg h =
    rest_lower Class.single_tst smode sreg dmode dreg
double_lower Class.single_shift smode sreg dmode dreg h =
    rest_lower Class.single_shift smode sreg dmode dreg
double_lower Class.other smode sreg dmode dreg h = rest_lower Class.other smode sreg dmode dreg

single_lower : (cls : Class) (dmode dreg : ℕ) (b : Bool) → 300 ≤ (ef_single cls dmode dreg b).ns
unfolding ef_single
single_lower Class.single_std dmode dreg b = ground arith
single_lower Class.single_neg dmode dreg b = ground arith
single_lower Class.single_tst dmode dreg b = ground arith
single_lower Class.single_shift dmode dreg b = ground arith
single_lower Class.cmp_class dmode dreg b = ground arith
single_lower Class.xor_class dmode dreg b = ground arith
single_lower Class.mov_class dmode dreg b = ground arith
single_lower Class.add_class dmode dreg b = ground arith
single_lower Class.other dmode dreg b = ground arith

-- The mode field of the destination.
abbrev mode_of : ℕ → ℕ
mode_of word = bit_and (word >>> 3) 0o7

mode_lt : (word : ℕ) → mode_of word < 8
mode_lt word = omega (arith, bit_and-le (word >>> 3) 0o7)

double_timing_lower : (word top : ℕ) → 300 ≤ (double_timing word top).ns
unfolding double_timing
double_timing_lower word top =
    let cls = if top == 0o11 then Class.add_class else classify_double top in
    omega (
      arith,
      double_lower cls (bit_and (word >>> 9) 0o7) (bit_and (word >>> 6) 0o7) (mode_of word)
          (bit_and (word >>> 0) 0o7) (mode_lt word),
    )

eis_timing_lower : (word : ℕ) → 300 ≤ (eis_timing word).ns
unfolding eis_timing
eis_timing_lower word = ground arith

single_timing_lower : (word : ℕ) → 300 ≤ (single_timing word).ns
unfolding single_timing
single_timing_lower word =
    let base = bit_and (bit_and (word >>> 6) 0o1777) 0o777 in
    ground (
      arith,
      entry-at_least 300 (900 ∷ 1650 ∷ 1650 ∷ 2100 ∷ 1800 ∷ 2250 ∷ 2100 ∷ 2550 ∷ []) (mode_of word)
          refl (mode_lt word),
      single_lower (single_class base) (mode_of word) (bit_and (word >>> 0) 0o7)
          (tst (bit_and (word >>> 6) 0o1777) 0o1000),
    )

jump_lower :
    (xs : List ℕ) (mode : ℕ)
    → at_least 300 xs ≡ true
    → mode < suc (size xs)
    → (mode == 0) ≡ false
    → 300 ≤ entry (0 ∷ xs) mode
jump_lower xs zero h lt away = absurd (ground arith)
jump_lower xs (suc mode) h lt away = entry-at_least 300 xs mode h (omega arith)

-- JMP or JSR whose destination is a register, which traps.
abbrev to_register : ℕ → Bool
to_register word =
    (bit_and word 0o177700 == 0o100 || bit_and word 0o177000 == 0o4000)
    && bit_and (word >>> 3) 0o7 == 0

-- Every instruction word but a JMP or a JSR to a register takes at least 300 ns.
pub instr_timing_lower : (word : ℕ) → to_register word ≡ false → 300 ≤ (instr_timing word).ns
unfolding instr_timing
instr_timing_lower word other = ground (
  arith,
  double_timing_lower word (bit_and (word >>> 12) 0o17),
  eis_timing_lower word,
  single_timing_lower word,
  jump_lower (900 ∷ 900 ∷ 1200 ∷ 900 ∷ 1350 ∷ 1050 ∷ 1500 ∷ []) (mode_of word) refl (mode_lt word),
  jump_lower (1950 ∷ 1950 ∷ 2250 ∷ 1950 ∷ 2400 ∷ 2100 ∷ 2550 ∷ []) (mode_of word) refl
      (mode_lt word),
)
