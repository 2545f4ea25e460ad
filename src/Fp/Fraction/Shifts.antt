-- ===== src/Fp/Fraction/Shifts.antt =====
-- src/core/fp/fp.c: `F_LSH_V` and `F_RSH_V` multiply and divide by a power of 2.
use native.Mathlib.Nat.{
  add-mul, add-mul-div_right, div-le_self, mul-le-mul_right, mul_assoc, mul_comm, mul_right_comm,
  mul-le-mul_left, mul-lt-mul_of_pos_right, div-add-mod', div-div-eq-div-mul, div-lt_iff_lt-mul,
  mod-lt, one-le-pow, pow-succ',
}
use emulator_pdp.Prelude.{
  ℕ, zero, suc, ◌+◌, ◌-◌, ◌*◌, ◌/◌, ◌%◌, ◌^◌, ◌≤◌, ◌<◌, leb, ap, sym, ◌∙◌, ◌≡◌, refl, arith,
  Bool-cases, inl, inr, true, false,
}
use emulator_pdp.Bits.{bit_and_low_of_lt, bit_or_fields}
use emulator_pdp.Fp.Fraction.{Fpac, whole, f_lsh_k, f_lsh_v, f_rsh_v}
use emulator_pdp.Fp.Fraction.Whole.{IsFpac, bit_or_sum}

pub pow_add : (a b : ℕ) → 2 ^ (a + b) ≡ 2 ^ a * 2 ^ b
pow_add zero b = let e : zero + b ≡ b = omega arith in ap (λ t. 2 ^ t) e ∙ omega arith
pow_add (suc a) b =
    let e : suc a + b ≡ suc (a + b) = omega arith in
    ap (λ t. 2 ^ t) e
    ∙ pow-succ' 2 (a + b)
    ∙ ap (λ t. 2 * t) (pow_add a b)
    ∙ sym (mul_assoc 2 (2 ^ a) (2 ^ b))
    ∙ ap (λ t. t * 2 ^ b) (sym (pow-succ' 2 a))

-- Two powers of 2 that make up a half.
both_powers : (n : ℕ) → n ≤ 32 → 2 ^ n * 2 ^ (32 - n) ≡ 2 ^ 32
both_powers n h =
    let e : n + (32 - n) ≡ 32 = omega arith in sym (pow_add n (32 - n)) ∙ ap (λ t. 2 ^ t) e

module _ (a b : ℕ) (e : a * b ≡ 2 ^ 32) (pa : 0 < a) (pb : 0 < b) where
  -- What moves out of a half and what stays in it.
  moved : (x : ℕ) → x * a ≡ x / b * 2 ^ 32 + x % b * a
  moved x =
      ap (λ t. t * a) (sym (div-add-mod' x b))
      ∙ omega (
        arith,
        add-mul (x / b * b) (x % b) a,
        mul_assoc (x / b) b a,
        ap (λ t. x / b * t) (mul_comm b a ∙ e),
      )

  stays : (x : ℕ) → x % b * a < 2 ^ 32
  stays x = omega (arith, mul-lt-mul_of_pos_right {k = a} (mod-lt x pb) pa, mul_comm b a, e)

pub pow_pos : (n : ℕ) → 0 < 2 ^ n
pow_pos n = omega (arith, one-le-pow n 2)

-- The parts of a shift to the left by less than a half.
lsh_below :
    (f : Fpac) (n : ℕ)
    → IsFpac f
    → leb 32 n ≡ false
    → n ≤ 32
    → whole f * 2 ^ n < 2 ^ 64
    → whole (f_lsh_v f n) ≡ whole f * 2 ^ n
unfolding f_lsh_v
lsh_below f n p short le fits =
    let low = p.low in
    let powers = both_powers n le in
    let out = moved (2 ^ n) (2 ^ (32 - n)) powers (pow_pos n) (pow_pos (32 - n)) f.l in
    let kept = stays (2 ^ n) (2 ^ (32 - n)) powers (pow_pos n) (pow_pos (32 - n)) f.l in
    let total : whole f * 2 ^ n ≡ f.h * 2 ^ n * 2 ^ 32 + f.l * 2 ^ n =
      add-mul (f.h * 2 ^ 32) f.l (2 ^ n) ∙ omega (arith, mul_right_comm f.h (2 ^ 32) (2 ^ n)) in
    let carried : f.l / 2 ^ (32 - n) < 2 ^ n =
      (div-lt_iff_lt-mul {x = f.l} {y = 2 ^ n} (pow_pos (32 - n))).1 (omega (arith, low, powers)) in
    let high =
      bit_or_sum n f.h (f.l / 2 ^ (32 - n)) (f.h * 2 ^ n % 2 ^ 32) carried
        (omega (arith, total, fits)) in
    rw (short, bit_and_low_of_lt n (f.l / 2 ^ (32 - n)) carried, high)
      (omega (arith, total, fits, out, kept))

lsh_above :
    (f : Fpac) (n : ℕ)
    → IsFpac f
    → leb 32 n ≡ true
    → 32 ≤ n
    → whole f * 2 ^ n < 2 ^ 64
    → whole (f_lsh_v f n) ≡ whole f * 2 ^ n
unfolding f_lsh_v
lsh_above f n p long le fits =
    let e : 32 + (n - 32) ≡ n = omega arith in
    let power : 2 ^ n ≡ 2 ^ 32 * 2 ^ (n - 32) = ap (λ t. 2 ^ t) (sym e) ∙ pow_add 32 (n - 32) in
    let grown = mul-le-mul_left (whole f * 2 ^ 32) (pow_pos (n - 32)) in
    let spread : whole f * 2 ^ n ≡ whole f * 2 ^ 32 * 2 ^ (n - 32) =
      ap (λ t. whole f * t) power ∙ sym (mul_assoc (whole f) (2 ^ 32) (2 ^ (n - 32))) in
    let empty : f.h ≡ 0 = omega (arith, grown, spread, fits) in
    let one_half : whole f ≡ f.l = omega (arith, empty) in
    let product : whole f * 2 ^ n ≡ f.l * 2 ^ (n - 32) * 2 ^ 32 =
      spread
      ∙ ap (λ t. t * 2 ^ 32 * 2 ^ (n - 32)) one_half
      ∙ mul_right_comm f.l (2 ^ 32) (2 ^ (n - 32)) in
    rw long (omega (arith, product, fits))

-- `F_LSH_V` multiplies by `2 ^ n`, where the product fits.
pub f_lsh_v-whole :
    (f : Fpac) (n : ℕ) → IsFpac f → whole f * 2 ^ n < 2 ^ 64 → whole (f_lsh_v f n) ≡ whole f * 2 ^ n
f_lsh_v-whole f n p fits = elim (Bool-cases (leb 32 n)) [
  | inl e ↦ lsh_above f n p e (ground (arith, e)) fits
  | inr e ↦ lsh_below f n p e (ground (arith, e)) fits
]

suc-le : (a b : ℕ) → a < b → a + 1 ≤ b
suc-le a b h = omega (arith, h)

rsh_below :
    (f : Fpac) (n : ℕ)
    → IsFpac f
    → leb 32 n ≡ false
    → n ≤ 32
    → whole (f_rsh_v f n) ≡ whole f / 2 ^ n
unfolding f_rsh_v
rsh_below f n p short le =
    let low = p.low in
    let high = p.high in
    let powers = both_powers n le in
    let swapped = mul_comm (2 ^ (32 - n)) (2 ^ n) ∙ powers in
    let out = moved (2 ^ (32 - n)) (2 ^ n) swapped (pow_pos (32 - n)) (pow_pos n) f.h in
    let kept = stays (2 ^ (32 - n)) (2 ^ n) swapped (pow_pos (32 - n)) (pow_pos n) f.h in
    let small_l : f.l / 2 ^ n < 2 ^ (32 - n) =
      (div-lt_iff_lt-mul {x = f.l} {y = 2 ^ (32 - n)} (pow_pos n)).1
        (omega (arith, low, swapped)) in
    let small_h : f.h / 2 ^ n < 2 ^ (32 - n) =
      (div-lt_iff_lt-mul {x = f.h} {y = 2 ^ (32 - n)} (pow_pos n)).1
        (omega (arith, high, swapped)) in
    let room : f.h % 2 ^ n * 2 ^ (32 - n) + 2 ^ (32 - n) ≤ 2 ^ 32 = omega (
      arith,
      mul-le-mul_right (2 ^ (32 - n)) (suc-le (f.h % 2 ^ n) (2 ^ n) (mod-lt f.h (pow_pos n))),
      add-mul (f.h % 2 ^ n) 1 (2 ^ (32 - n)),
      powers,
    ) in
    let place : f.h * 2 ^ (32 - n) % 2 ^ 32 ≡ f.h % 2 ^ n * 2 ^ (32 - n) =
      omega (arith, out, kept) in
    let joined = bit_or_fields (32 - n) (f.h % 2 ^ n) (f.l / 2 ^ n) small_l in
    let spread : f.h * 2 ^ 32 ≡ f.h * 2 ^ (32 - n) * 2 ^ n =
      ap (λ t. f.h * t) (sym swapped) ∙ sym (mul_assoc f.h (2 ^ (32 - n)) (2 ^ n)) in
    let sum : f.h * 2 ^ 32 + f.l ≡ f.l + f.h * 2 ^ (32 - n) * 2 ^ n = omega (arith, spread) in
    let quotient : whole f / 2 ^ n ≡ f.l / 2 ^ n + f.h * 2 ^ (32 - n) =
      ap (λ t. t / 2 ^ n) sum ∙ add-mul-div_right f.l (f.h * 2 ^ (32 - n)) (pow_pos n) in
    rw
      (
        short,
        bit_and_low_of_lt (32 - n) (f.l / 2 ^ n) small_l,
        bit_and_low_of_lt (32 - n) (f.h / 2 ^ n) small_h,
        place,
        joined,
      )
      (omega (arith, quotient, out, room, small_l))

rsh_above :
    (f : Fpac) (n : ℕ)
    → IsFpac f
    → leb 32 n ≡ true
    → 32 ≤ n
    → n ≤ 64
    → whole (f_rsh_v f n) ≡ whole f / 2 ^ n
unfolding f_rsh_v
rsh_above f n p long le top =
    let low = p.low in
    let high = p.high in
    let e : 32 + (n - 32) ≡ n = omega arith in
    let rest : 32 - (n - 32) ≡ 64 - n = omega arith in
    let power : 2 ^ n ≡ 2 ^ 32 * 2 ^ (n - 32) = ap (λ t. 2 ^ t) (sym e) ∙ pow_add 32 (n - 32) in
    let powers = both_powers (n - 32) (omega arith) in
    let split : 2 ^ (n - 32) * 2 ^ (64 - n) ≡ 2 ^ 32 =
      ap (λ t. 2 ^ (n - 32) * 2 ^ t) (sym rest) ∙ powers in
    let small : f.h / 2 ^ (n - 32) < 2 ^ (64 - n) =
      (div-lt_iff_lt-mul {x = f.h} {y = 2 ^ (64 - n)} (pow_pos (n - 32))).1
        (omega (arith, high, split, mul_comm (2 ^ (n - 32)) (2 ^ (64 - n)))) in
    let top_half : whole f / 2 ^ 32 ≡ f.h = omega (arith, low) in
    let quotient : whole f / 2 ^ n ≡ f.h / 2 ^ (n - 32) =
      ap (λ t. whole f / t) power
      ∙ sym (div-div-eq-div-mul (whole f) (2 ^ 32) (2 ^ (n - 32)))
      ∙ ap (λ t. t / 2 ^ (n - 32)) top_half in
    rw (long, bit_and_low_of_lt (64 - n) (f.h / 2 ^ (n - 32)) small)
      (omega (arith, quotient, high, div-le_self f.h (2 ^ (n - 32))))

-- `F_RSH_V` divides by `2 ^ n`.
pub f_rsh_v-whole : (f : Fpac) (n : ℕ) → IsFpac f → n ≤ 64 → whole (f_rsh_v f n) ≡ whole f / 2 ^ n
f_rsh_v-whole f n p top = elim (Bool-cases (leb 32 n)) [
  | inl e ↦ rsh_above f n p e (ground (arith, e)) top
  | inr e ↦ rsh_below f n p e (ground (arith, e))
]

-- `F_LSH_K` is `F_LSH_V` by less than a half.
f_lsh_k-f_lsh_v : (n : ℕ) (f : Fpac) → leb 32 n ≡ false → f_lsh_k n f ≡ f_lsh_v f n
unfolding f_lsh_k f_lsh_v
f_lsh_k-f_lsh_v n f short = rw short refl

pub f_lsh_k-whole :
    (n : ℕ) (f : Fpac)
    → n < 32
    → IsFpac f
    → whole f * 2 ^ n < 2 ^ 64
    → whole (f_lsh_k n f) ≡ whole f * 2 ^ n
f_lsh_k-whole n f small p fits =
    ap whole (f_lsh_k-f_lsh_v n f (ground (arith, small))) ∙ f_lsh_v-whole f n p fits

pub f_rsh_v-low : (f : Fpac) (n : ℕ) → (f_rsh_v f n).l < 2 ^ 32
unfolding f_rsh_v
f_rsh_v-low f n = omega arith
