-- ===== src/Fp/Convert/RoundTrip.antt =====
-- src/core/fp/fp.c: an integer survives its conversion to floating point and back.
use native.Mathlib.Nat.{mul_assoc, mul-le-mul_left, mul-div_cancel, pow-le-pow_right}
use emulator_pdp.Prelude.{
  ℕ, ◌+◌, ◌-◌, ◌*◌, ◌/◌, ◌%◌, ◌^◌, ◌≤◌, ◌<◌, ltb, leb, tst, ◌==◌, bit_and, bit_or, bit_xor, ap, sym,
  ◌∙◌, ◌≡◌, refl, arith, Bool-cases, inl, inr, if◌then◌else◌, ◌>>>◌, u32, Bool, true, false, ==_iff,
}
use emulator_pdp.Bits.{bit_and_low, bit_and_parts, bit_or_fields, bit_xor-add-bit_and}
use emulator_pdp.Instr.Eis.{neg32}
use emulator_pdp.Fp.Fraction.{Fpac, whole, f_rsh_v, get_sign, get_exp, fp_bias, fp_frach, fp_hb}
use emulator_pdp.Fp.Fraction.Whole.{IsFpac, bit_or_sum}
use emulator_pdp.Fp.Fraction.Shifts.{f_rsh_v-whole, f_rsh_v-low, pow_add, pow_pos}
use emulator_pdp.Fp.Round.{from_fac, fps_d, fps_l, fps_t}
use emulator_pdp.Fp.Convert.{
  Placed, place, place_fuel, ldcif_pack, pdp11_fp_ldcif, stcfi_integer, stcfi_fraction,
  stcfi_magnitude, i_limit,
}
use emulator_pdp.Fp.Convert.Ends.{IsPlaced, place_lem}

pub from_fac-whole : (f : Fpac) → IsFpac f → from_fac f ≡ whole f
unfolding from_fac
from_fac-whole f p =
    let low = p.low in
    let high = p.high in
    bit_or_sum 32 f.h f.l (f.h * 2 ^ 32 % 2 ^ 64) low (omega (arith, high)) ∙ omega (arith, high)

-- The fields of the upper half.
abbrev fields : ℕ → ℕ → ℕ → ℕ
fields sign exp bits = sign * 2 ^ 31 + exp * 2 ^ 23 + bits / 2 ^ 8 % 2 ^ 23

upper_fields :
    (sign exp bits : ℕ)
    → sign < 2
    → exp < 256
    → bit_or (bit_or (u32 (sign * 2 ^ 31)) (u32 (exp * 2 ^ 23))) (bit_and (bits / 2 ^ 8) fp_frach)
      ≡ fields sign exp bits
upper_fields sign exp bits hs he =
    let es : sign * 2 ^ 31 % 2 ^ 32 ≡ sign * 2 ^ 31 = omega (arith, hs) in
    let ee : exp * 2 ^ 23 % 2 ^ 32 ≡ exp * 2 ^ 23 = omega (arith, he) in
    let top = bit_or_sum 31 sign (exp * 2 ^ 23) (sign * 2 ^ 31) (omega (arith, he)) refl in
    let frac : bit_and (bits / 2 ^ 8) fp_frach ≡ bits / 2 ^ 8 % 2 ^ 23 =
      bit_and_low 23 (bits / 2 ^ 8) in
    rw (es, ee, top, frac)
      (bit_or_sum 23 (sign * 2 ^ 8 + exp) (bits / 2 ^ 8 % 2 ^ 23) (sign * 2 ^ 31 + exp * 2 ^ 23)
        (omega arith) (omega arith))

-- The places of a 32-bit integer that is not 0.
few_places : (m bits places : ℕ) → 0 < m → bits ≡ m * 2 ^ places → bits < 2 ^ 32 → places < 32
few_places m bits places pos e h = elim (Bool-cases (leb 32 places)) [
  | inl f ↦
      let wide : 32 ≤ places = ground (arith, f) in
      let large : 2 ^ 32 ≤ 2 ^ places = pow-le-pow_right {n = 2} (omega arith) wide in
      omega (arith, e, h, mul-le-mul_left m large, pos)
  | inr f ↦ ground (arith, f)
]

-- The sign and the magnitude of an integer.
abbrev ldcif_sign : ℕ → ℕ
ldcif_sign x = get_sign x

abbrev ldcif_magnitude : ℕ → ℕ
ldcif_magnitude x = if get_sign x == 0 then x else u32 (bit_xor x 0xffff_ffff + 1)

magnitude-cases :
    (x : ℕ) → x < 2 ^ 32 → ldcif_magnitude x ≡ (if ltb x (2 ^ 31) then x else 2 ^ 32 - x)
magnitude-cases x h =
    ground
      (arith, h, bit_and_low 1 (x / 2 ^ 31), bit_xor-add-bit_and x 0xffff_ffff, bit_and_low 32 x)

-- How the conversion goes, when its magnitude is within the limit.
stcfi_lem :
    (val fps exp m : ℕ) (sign : Bool)
    → tst fps fps_l ≡ true
    → (get_sign (u32 (val >>> 32)) == 1) ≡ sign
    → get_exp (u32 (val >>> 32)) ≡ exp
    → stcfi_magnitude (stcfi_fraction val fps) (184 - exp) true ≡ m
    → leb exp fp_bias ≡ false
    → ltb 160 exp ≡ false
    → leb (i_limit true sign) m ≡ false
    → stcfi_integer val fps ≡ record { dst = if sign then neg32 m else m; c = false }
unfolding stcfi_integer
stcfi_lem val fps exp m sign long es ee em low high fits =
    rw (long, es, ee, em, low, high, fits) refl

-- A packed integer.
abbrev packed : ℕ → ℕ → ℕ → ℕ
packed sign exp bits = fields sign exp bits * 2 ^ 32 + bits * 2 ^ 24 % 2 ^ 32

module _ (sign exp bits : ℕ) (hs : sign < 2) (he : exp < 256) (hb : bits < 2 ^ 32) where
  packed-high : u32 (packed sign exp bits >>> 32) ≡ fields sign exp bits
  packed-high = omega (arith, hs, he)

  packed-sign : get_sign (u32 (packed sign exp bits >>> 32)) ≡ sign
  packed-sign =
      omega (arith, packed-high, bit_and_low 1 (u32 (packed sign exp bits >>> 32) / 2 ^ 31), hs, he)

  packed-exp : get_exp (u32 (packed sign exp bits >>> 32)) ≡ exp
  packed-exp =
      omega (arith, packed-high, bit_and_low 8 (u32 (packed sign exp bits >>> 32) / 2 ^ 23), hs, he)

  packed_fraction :
      (fps : ℕ)
      → tst fps fps_d ≡ true
      → 2 ^ 31 ≤ bits
      → IsFpac (stcfi_fraction (packed sign exp bits) fps)
        × (whole (stcfi_fraction (packed sign exp bits) fps) ≡ bits * 2 ^ 24)
  unfolding stcfi_fraction
  packed_fraction fps dbl lead =
      let h = bit_and (u32 (packed sign exp bits >>> 32)) fp_frach in
      let low : h ≡ bits / 2 ^ 8 % 2 ^ 23 =
        omega (arith, packed-high, bit_and_low 23 (u32 (packed sign exp bits >>> 32)), hs, he) in
      let joined : bit_or h fp_hb ≡ h + 2 ^ 23 = bit_or_fields 23 1 h (omega (arith, low)) in
      rw dbl (
        record { low = omega arith; high = omega (arith, low, joined) },
        omega (arith, low, joined, lead, hb),
      )

magnitude_back :
    (f : Fpac) (m i : ℕ)
    → IsFpac f
    → whole f ≡ m * 2 ^ i * 2 ^ 24
    → i < 32
    → m < 2 ^ 32
    → stcfi_magnitude f (184 - (160 - i)) true ≡ m
unfolding stcfi_magnitude
magnitude_back f m i p e few h =
    let n : 184 - (160 - i) ≡ i + 24 = omega (arith, few) in
    let moved = f_rsh_v-whole f (i + 24) p (omega (arith, few)) in
    let product : whole f ≡ m * 2 ^ (i + 24) =
      e ∙ mul_assoc m (2 ^ i) (2 ^ 24) ∙ ap (λ t. m * t) (sym (pow_add i 24)) in
    let back : whole f / 2 ^ (i + 24) ≡ m =
      ap (λ t. t / 2 ^ (i + 24)) product ∙ mul-div_cancel m (pow_pos (i + 24)) in
    ap (λ t. (f_rsh_v f t).l) n ∙ omega (arith, moved, back, h, f_rsh_v-low f (i + 24))

both_modes : (fps : ℕ) → tst fps fps_d ≡ true → tst fps (bit_or fps_d fps_t) ≡ true
both_modes fps dbl = ground (arith, dbl, bit_and_parts fps 0o40 0o200 refl)

ldcif_lem :
    (x fps : ℕ)
    → tst fps (bit_or fps_d fps_t) ≡ true
    → x == 0 ≡ false
    → pdp11_fp_ldcif x fps
      ≡ from_fac (ldcif_pack (get_sign x) (place place_fuel (ldcif_magnitude x) 0) fps)
unfolding pdp11_fp_ldcif
ldcif_lem x fps keeps some_bits = rw (keeps, some_bits) refl

-- The packed form of an integer that is placed.
ldcif_pack-whole :
    (sign m fps : ℕ) (p : Placed)
    → sign < 2
    → tst fps fps_l ≡ true
    → IsPlaced m 0 p
    → from_fac (ldcif_pack sign p fps) ≡ packed sign (160 - p.i) p.bits
unfolding ldcif_pack
ldcif_pack-whole sign m fps p hs long placed =
    let within = placed.within in
    let counted = placed.counted in
    let upper = upper_fields sign (160 - p.i) p.bits hs (omega arith) in
    let halves : IsFpac (ldcif_pack sign p fps) =
      rw (long, upper) (record { low = omega arith; high = omega (arith, hs) }) in
    from_fac-whole (ldcif_pack sign p fps) halves ∙ rw (long, upper) (omega arith)

-- The integer from its sign and its magnitude.
with_sign_back :
    (x : ℕ) (sign : Bool)
    → x < 2 ^ 32
    → (get_sign x == 1) ≡ sign
    → (if sign then neg32 (ldcif_magnitude x) else ldcif_magnitude x) ≡ x
with_sign_back x true h e = ground (arith, h, e, magnitude-cases x h, bit_and_low 1 (x / 2 ^ 31))
with_sign_back x false h e = ground (arith, h, e, magnitude-cases x h, bit_and_low 1 (x / 2 ^ 31))

within_limit :
    (x : ℕ) (sign : Bool)
    → x < 2 ^ 32
    → (get_sign x == 1) ≡ sign
    → leb (i_limit true sign) (ldcif_magnitude x) ≡ false
unfolding i_limit
within_limit x true h e = ground (arith, h, e, magnitude-cases x h, bit_and_low 1 (x / 2 ^ 31))
within_limit x false h e = ground (arith, h, e, magnitude-cases x h, bit_and_low 1 (x / 2 ^ 31))

nonzero_back :
    (x fps : ℕ)
    → x < 2 ^ 32
    → x == 0 ≡ false
    → tst fps fps_d ≡ true
    → tst fps fps_l ≡ true
    → stcfi_integer (pdp11_fp_ldcif x fps) fps ≡ record { dst = x; c = false }
nonzero_back x fps h some_bits dbl long =
    let m = ldcif_magnitude x in
    let sized = magnitude-cases x h in
    let p = place place_fuel m 0 in
    let pos : 0 < m = ground (arith, sized, some_bits, h) in
    let small : m < 2 ^ 32 = ground (arith, sized, some_bits, h) in
    let placed = place_lem m pos small in
    let sg : get_sign x < 2 = omega (arith, bit_and_low 1 (x / 2 ^ 31)) in
    let counted : p.i ≡ placed.places = omega (arith, placed.counted) in
    let few : p.i < 32 =
      omega (arith, counted, few_places m p.bits placed.places pos placed.value placed.within) in
    let exp = 160 - p.i in
    let he : exp < 256 = omega arith in
    let val = packed (get_sign x) exp p.bits in
    let loaded : pdp11_fp_ldcif x fps ≡ val =
      ldcif_lem x fps (both_modes fps dbl) some_bits
      ∙ ldcif_pack-whole (get_sign x) m fps p sg long placed in
    let frac = packed_fraction (get_sign x) exp p.bits sg he placed.within fps dbl placed.leading in
    let value = frac.1 ∙ ap (λ t. t * 2 ^ 24) (placed.value ∙ ap (λ t. m * 2 ^ t) (sym counted)) in
    let stored =
      stcfi_lem val fps exp m (get_sign x == 1) long
        (ap (λ t. t == 1) (packed-sign (get_sign x) exp p.bits sg he placed.within))
        (packed-exp (get_sign x) exp p.bits sg he placed.within)
        (magnitude_back (stcfi_fraction val fps) m p.i (frac.0) value few small)
        (ground (arith, few)) (ground arith) (within_limit x (get_sign x == 1) h refl) in
    let back = with_sign_back x (get_sign x == 1) h refl in
    ap (λ t. stcfi_integer t fps) loaded ∙ stored ∙ (λ i. record { dst = back i; c = false })

-- In double precision and with long integers, the conversion of an integer of 32 bits to floating
-- point and back gives the same integer and no error.
pub stcfi_integer-pdp11_fp_ldcif :
    (x fps : ℕ)
    → x < 2 ^ 32
    → tst fps fps_d ≡ true
    → tst fps fps_l ≡ true
    → stcfi_integer (pdp11_fp_ldcif x fps) fps ≡ record { dst = x; c = false }
unfolding pdp11_fp_ldcif stcfi_integer
stcfi_integer-pdp11_fp_ldcif x fps h dbl long = elim (Bool-cases (x == 0)) [
  | inl e ↦
      let none : x ≡ 0 = (==_iff x 0).0 e in
      ap (λ t. stcfi_integer (pdp11_fp_ldcif t fps) fps) none
      ∙ (λ i. record { dst = (sym none) i; c = false })
  | inr e ↦ nonzero_back x fps h e dbl long
]
