-- ===== src/Fp/Add/Swap.antt =====
-- src/core/fp/fp.c: the operands of `addfp11` may be exchanged, and opposite numbers cancel.
use emulator_pdp.Prelude.{
  ℕ, ◌-◌, ◌/◌, ◌%◌, ◌^◌, ◌<◌, ltb, ◌==◌, bit_and, bit_or, and_not, ap, sym, ◌∙◌, ◌≡◌, refl, arith,
  Bool-cases, inl, inr, if◌then◌else◌, true, false, sub32,
}
use emulator_pdp.Bits.{bit_and_low, and_not-add-bit_and, bit_and_parts}
use emulator_pdp.Fp.Fraction.{
  Fpac, fp_sign, fp_frach, get_exp, get_sign, f_lt_ap, f_sub, f_is_zero, f_get_frac, f_lsh_guard,
  zero_fac,
}
use emulator_pdp.Fp.Fraction.Whole.{IsFpac}
use emulator_pdp.Fp.Round.{Packed}
use emulator_pdp.Fp.Add.{addfp11, add_ordered, sub_magnitudes, guarded, align}

-- The half without its sign, and its sign.
unsigned_half : (h : ℕ) → h < 2 ^ 32 → and_not h fp_sign ≡ h % 2 ^ 31
unsigned_half h p = omega (
  arith,
  p,
  and_not-add-bit_and h fp_sign,
  bit_and_parts h (2 ^ 31 - 1) (2 ^ 31) refl,
  bit_and_low 31 h,
  bit_and_low 32 h,
)

-- The two numbers have the same magnitude.
record IsLevel (x y : Fpac) : Type 0 where
  high : x.h % 2 ^ 31 ≡ y.h % 2 ^ 31
  low : x.l ≡ y.l

-- Neither is the smaller.
level : (x y : Fpac) → IsFpac x → IsFpac y → f_lt_ap x y ≡ false → f_lt_ap y x ≡ false → IsLevel x y
unfolding f_lt_ap
level x y p q e f =
    let a = unsigned_half x.h p.high in
    let b = unsigned_half y.h q.high in
    record { high = ground (arith, a, b, e, f); low = ground (arith, a, b, e, f) }

not_both : (x y : Fpac) → f_lt_ap x y ≡ true → f_lt_ap y x ≡ false
unfolding f_lt_ap
not_both x y e = ground (arith, e)

-- What depends on the magnitude alone.
level-exp : (x y : Fpac) → IsLevel x y → get_exp x.h ≡ get_exp y.h
level-exp x y v =
    let e = v.high in omega (arith, e, bit_and_low 8 (x.h / 2 ^ 23), bit_and_low 8 (y.h / 2 ^ 23))

level-frac : (x y : Fpac) → IsLevel x y → f_get_frac x ≡ f_get_frac y
unfolding f_get_frac
level-frac x y v =
    let e = v.high in
    let low = v.low in
    let eh : bit_and x.h fp_frach ≡ bit_and y.h fp_frach =
      omega (arith, e, bit_and_low 23 x.h, bit_and_low 23 y.h) in
    λ i. record { l = low i; h = bit_or (eh i) 0x80_0000 }

level_same :
    (x y : Fpac) → IsFpac x → IsFpac y → IsLevel x y → get_sign x.h == get_sign y.h ≡ true → x ≡ y
level_same x y p q v s =
    let low = v.low in
    let eh : x.h ≡ y.h = ground (
      arith,
      s,
      v.high,
      p.high,
      q.high,
      bit_and_low 1 (x.h / 2 ^ 31),
      bit_and_low 1 (y.h / 2 ^ 31),
    ) in
    λ i. record { l = low i; h = eh i }

abbrev nothing_left : ℕ → Packed
nothing_left fec = record { fac = zero_fac; v = 0; fec = fec }

f_sub_self : (g : Fpac) → f_is_zero (f_sub g g) ≡ true
unfolding f_sub f_is_zero
f_sub_self g =
    let el : sub32 g.l g.l ≡ 0 = omega arith in
    let eh : sub32 (sub32 g.h g.h) (if ltb g.l g.l then 1 else 0) ≡ 0 = ground arith in
    rw (el, eh) refl

guarded-level : (x y : Fpac) → IsLevel x y → guarded x ≡ guarded y
unfolding guarded
guarded-level x y v = ap f_lsh_guard (level-frac x y v)

level_difference :
    (x y : Fpac) → IsLevel x y → f_is_zero (f_sub (align (guarded y) 0) (guarded x)) ≡ true
unfolding align
level_difference x y v =
    ap (λ t. f_is_zero (f_sub (guarded y) t)) (guarded-level x y v) ∙ f_sub_self (guarded y)

-- Equal fractions of opposite sign leave nothing.
sub_magnitudes-level :
    (x y : Fpac) (facexp fps fec : ℕ)
    → IsLevel x y
    → sub_magnitudes x y facexp 0 fps fec ≡ nothing_left fec
unfolding sub_magnitudes
sub_magnitudes-level x y facexp fps fec v = rw (level_difference x y v) refl

add_ordered-opposite :
    (x y : Fpac) (fps fec : ℕ)
    → IsLevel x y
    → get_sign x.h == get_sign y.h ≡ false
    → add_ordered x y fps fec ≡ nothing_left fec
unfolding add_ordered
add_ordered-opposite x y fps fec v s =
    let e = level-exp x y v in
    let none_apart : sub32 (get_exp y.h) (get_exp y.h) ≡ 0 = omega arith in
    elim (Bool-cases (get_exp y.h == 0)) [
      | inl z ↦ rw (e, z) refl
      | inr z ↦ rw (e, z, none_apart, s) (sub_magnitudes-level x y (get_exp y.h) fps fec v)
    ]

flip : (x y : Fpac) → get_sign x.h == get_sign y.h ≡ false → get_sign y.h == get_sign x.h ≡ false
flip x y s = ground (arith, s)

flip_level : (x y : Fpac) → IsLevel x y → IsLevel y x
flip_level x y v = record { high = sym v.high; low = sym v.low }

add_ordered-level :
    (x y : Fpac) (fps fec : ℕ)
    → IsFpac x
    → IsFpac y
    → IsLevel x y
    → add_ordered x y fps fec ≡ add_ordered y x fps fec
add_ordered-level x y fps fec p q v = elim (Bool-cases (get_sign x.h == get_sign y.h)) [
  | inl s ↦
      let e = level_same x y p q v s in
      ap (λ t. add_ordered t y fps fec) e ∙ ap (λ t. add_ordered y t fps fec) (sym e)
  | inr s ↦
      add_ordered-opposite x y fps fec v s
      ∙ sym (add_ordered-opposite y x fps fec (flip_level x y v) (flip x y s))
]

pub addfp11_comm :
    (x y : Fpac) (fps fec : ℕ) → IsFpac x → IsFpac y → addfp11 x y fps fec ≡ addfp11 y x fps fec
unfolding addfp11
addfp11_comm x y fps fec p q = elim (Bool-cases (f_lt_ap x y)) [
  | inl e ↦ rw (e, not_both x y e) refl
  | inr e ↦ elim (Bool-cases (f_lt_ap y x)) [
    | inl f ↦ rw (e, f) refl
    | inr f ↦ rw (e, f) (add_ordered-level x y fps fec p q (level x y p q e f))
  ]
]
