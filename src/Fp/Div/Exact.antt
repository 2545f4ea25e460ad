-- ===== src/Fp/Div/Exact.antt =====
-- src/core/fp/fp.c: the division loop of `divfp11` gives the exact quotient of the two fractions.
use native.Mathlib.Nat.{
  add-mul, mul_assoc, mul_comm, mul_right_comm, mul_left_comm, mul-le-mul_left, mul-le-mul_right,
  mul-div_cancel, div-lt_iff_lt-mul, add-mul-div_right, pow-succ', one-le-pow,
}
use emulator_pdp.Prelude.{
  ℕ, zero, suc, ◌+◌, ◌*◌, ◌/◌, ◌%◌, ◌^◌, ◌≤◌, ◌<◌, ltb, bit_or, ap, sym, ◌∙◌, ◌≡◌, arith,
  Bool-cases, inl, inr, if◌then◌else◌, Bool, true, false, lt→ltb,
}
use emulator_pdp.Fp.Fraction.{Fpac, whole, f_lt, f_sub, f_lsh_1, f_lsh_v, f_is_zero, zero_fac}
use emulator_pdp.Fp.Fraction.Whole.{
  IsFpac, bit_or_sum, f_is_zero-whole, f_lt-whole, f_sub-whole, f_sub-IsFpac, f_lsh_1-whole,
  f_lsh_1-IsFpac,
}
use emulator_pdp.Fp.Fraction.Shifts.{f_lsh_v-whole}
use emulator_pdp.Fp.Div.{Division, set_quo, div_round, div_rounds, div_count, div_frac}

-- What one bit of the quotient is worth: single precision keeps it in the upper half.
abbrev pub unit : Bool → ℕ
unit qd = if qd then 1 else 2 ^ 32

-- The quotient so far is `u` units.
record IsQuo (qd : Bool) (quo : Fpac) (u : ℕ) : Type 0 where
  value : whole quo ≡ u * unit qd
  halves : IsFpac quo

IsQuo-moved :
    (qd : Bool) (quo : Fpac) (u : ℕ)
    → IsQuo qd quo u
    → u * unit qd < 2 ^ 59
    → IsQuo qd (f_lsh_1 quo) (2 * u)
IsQuo-moved qd quo u v h = record {
  value = f_lsh_1-whole quo v.halves ∙ omega (arith, v.value, h, mul_assoc 2 u (unit qd));
  halves = f_lsh_1-IsFpac quo;
}

even_plus : (x : ℕ) → x % 2 ≡ 0 → bit_or x 1 ≡ x + 1
even_plus x e = bit_or_sum 1 (x / 2) 1 x (omega arith) (omega (arith, e))

set_quo-IsQuo :
    (qd : Bool) (quo : Fpac) (u : ℕ)
    → IsQuo qd quo (2 * u)
    → u * unit qd < 2 ^ 59
    → IsQuo qd (set_quo qd quo) (2 * u + 1)
set_quo-IsQuo true quo u v h =
    let low = v.halves.low in
    let high = v.halves.high in
    let value = v.value in
    let plus = even_plus quo.l (omega (arith, low, value)) in
    record {
      value = omega (arith, plus, value);
      halves = record { low = omega (arith, low, value, plus); high = high };
    }
set_quo-IsQuo false quo u v h =
    let low = v.halves.low in
    let high = v.halves.high in
    let value = v.value in
    let plus = even_plus quo.h (omega (arith, low, value)) in
    record {
      value = omega (arith, plus, value, low);
      halves = record { low = low; high = omega (arith, plus, value, low, h) };
    }

-- What a round makes of the dividend and of the quotient.
record IsRound (qd : Bool) (divisor rest : Fpac) (u : ℕ) (out : Division) : Type 0 where
  found : ℕ
  left : whole out.rest + 2 * (found * whole divisor) ≡ 2 * whole rest
  smaller : whole out.rest < 2 * whole divisor
  rest_halves : IsFpac out.rest
  one_bit : found ≤ 1
  quo : IsQuo qd out.quo (2 * u + found)

div_round-IsRound :
    (qd : Bool) (divisor rest quo : Fpac) (u : ℕ)
    → IsFpac divisor
    → IsFpac rest
    → whole divisor < 2 ^ 59
    → whole rest < 2 * whole divisor
    → IsQuo qd quo u
    → u * unit qd < 2 ^ 59
    → IsRound qd divisor rest u (div_round qd divisor rest quo)
unfolding div_round
div_round-IsRound qd divisor rest quo u p q small below v fits =
    let order = f_lt-whole rest divisor q p in
    let moved = IsQuo-moved qd quo u v fits in
    elim (Bool-cases (f_lt rest divisor)) [
      | inl e ↦
          let lt : whole rest < whole divisor = ground (arith, order, e) in
          let twice = f_lsh_1-whole rest q in
          rw e (record {
            found = 0;
            left = omega (arith, twice, small, lt);
            smaller = omega (arith, twice, small, lt);
            rest_halves = f_lsh_1-IsFpac rest;
            one_bit = omega arith;
            quo = record { value = omega (arith, moved.value); halves = moved.halves };
          })
      | inr e ↦
          let le : whole divisor ≤ whole rest = ground (arith, order, e) in
          let less = f_sub-whole divisor rest p q le in
          let twice = f_lsh_1-whole (f_sub divisor rest) (f_sub-IsFpac divisor rest) in
          rw e (record {
            found = 1;
            left = omega (arith, twice, less, small, below, le);
            smaller = omega (arith, twice, less, small, below, le);
            rest_halves = f_lsh_1-IsFpac (f_sub divisor rest);
            one_bit = omega arith;
            quo = set_quo-IsQuo qd (f_lsh_1 quo) u moved fits;
          })
    ]

-- The quotient that the loop leaves, put in place.
abbrev placed : Division → Fpac
placed out = if ltb 0 out.i then f_lsh_v out.quo out.i else out.quo

zero_plus : (x : ℕ) → 0 + x ≡ x
zero_plus x = omega arith

-- The loop from an exhausted dividend, and at its end.
shifted_out :
    (qd : Bool) (quo : Fpac) (u d n : ℕ)
    → 0 < d
    → IsQuo qd quo u
    → u * unit qd * 2 ^ n < 2 ^ 64
    → whole (f_lsh_v quo n) ≡ 2 ^ n * (0 + u * d) / d * unit qd
shifted_out qd quo u d n pos v fits =
    let value = v.value in
    let moved = f_lsh_v-whole quo n v.halves (omega (arith, fits, ap (λ t. t * 2 ^ n) value)) in
    let exact : 2 ^ n * (0 + u * d) / d ≡ u * 2 ^ n =
      ap (λ t. t / d) (ap (λ t. 2 ^ n * t) (zero_plus (u * d)) ∙ sym (mul_assoc (2 ^ n) u d))
      ∙ mul-div_cancel (2 ^ n * u) pos
      ∙ mul_comm (2 ^ n) u in
    moved
    ∙ ap (λ t. t * 2 ^ n) value
    ∙ mul_right_comm u (unit qd) (2 ^ n)
    ∙ ap (λ t. t * unit qd) (sym exact)

one_times : (x : ℕ) → 1 * x ≡ x
one_times x = omega arith

plus_none : (x y : ℕ) → x + 0 * y ≡ x
plus_none x y = omega arith

unit_pos : (qd : Bool) → 0 < unit qd
unit_pos true = omega arith
unit_pos false = omega arith

no_bits : (qd : Bool) → IsQuo qd zero_fac 0
no_bits qd = record {
  value = omega arith;
  halves = record { low = omega arith; high = omega arith };
}

-- The room for the bits that are still to come.
abbrev HasRoom : Bool → ℕ → ℕ → Type 0
HasRoom qd u i = (u + 1) * 2 ^ i * unit qd ≤ 2 ^ 59

room_split :
    (qd : Bool) (u i : ℕ) → (u + 1) * 2 ^ i * unit qd ≡ u * unit qd * 2 ^ i + 2 ^ i * unit qd
room_split qd u i =
    ap (λ t. t * unit qd) (add-mul u 1 (2 ^ i))
    ∙ add-mul (u * 2 ^ i) (1 * 2 ^ i) (unit qd)
    ∙ omega (arith, mul_right_comm u (2 ^ i) (unit qd), ap (λ t. t * unit qd) (one_times (2 ^ i)))

room_now : (qd : Bool) (u i : ℕ) → HasRoom qd u i → u * unit qd < 2 ^ 59
room_now qd u i room =
    let grown = mul-le-mul_left (u * unit qd) (one-le-pow i 2 (omega arith)) in
    let bits = mul-le-mul_right (unit qd) (one-le-pow i 2 (omega arith)) in
    omega (arith, room_split qd u i, room, grown, bits, unit_pos qd)

room_next : (qd : Bool) (u q i : ℕ) → q ≤ 1 → HasRoom qd u (suc i) → HasRoom qd (2 * u + q) i
room_next qd u q i h room =
    let few : 2 * u + q + 1 ≤ (u + 1) * 2 = omega (arith, h) in
    let twice : (u + 1) * 2 ^ suc i ≡ (u + 1) * 2 * 2 ^ i =
      ap (λ t. (u + 1) * t) (pow-succ' 2 i) ∙ sym (mul_assoc (u + 1) 2 (2 ^ i)) in
    let less = mul-le-mul_right (unit qd) (mul-le-mul_right (2 ^ i) few) in
    omega (arith, less, room, ap (λ t. t * unit qd) twice)

-- The sum that a round doubles.
round_sum :
    (r r' u q d i : ℕ)
    → r' + 2 * (q * d) ≡ 2 * r
    → 2 ^ i * (r' + (2 * u + q) * (2 * d)) ≡ 2 ^ suc i * (r + u * (2 * d))
round_sum r r' u q d i e =
    let spread : r' + (2 * u + q) * (2 * d) ≡ 2 * (r + u * (2 * d)) =
      omega (arith, e, add-mul (2 * u) q (2 * d), mul_assoc 2 u (2 * d), mul_left_comm q 2 d) in
    ap (λ t. 2 ^ i * t) spread
    ∙ mul_left_comm (2 ^ i) 2 (r + u * (2 * d))
    ∙ sym (mul_assoc 2 (2 ^ i) (r + u * (2 * d)))
    ∙ ap (λ t. t * (r + u * (2 * d))) (sym (pow-succ' 2 i))

at_end : (r u d : ℕ) → r < d → 2 ^ 0 * (r + u * d) / d ≡ u
at_end r u d h =
    let pos : 0 < d = omega (arith, h) in
    let gone : r / d < 1 = (div-lt_iff_lt-mul {x = r} {y = 1} pos).1 (omega (arith, h)) in
    let once : 2 ^ 0 * (r + u * d) ≡ r + u * d = omega arith in
    ap (λ t. t / d) once ∙ add-mul-div_right r u pos ∙ omega (arith, gone)

first_room : (qd : Bool) → HasRoom qd 0 (div_count qd)
first_room true = omega arith
first_room false = omega arith

div_rounds-placed :
    (qd : Bool) (divisor : Fpac) (i : ℕ) (rest quo : Fpac) (u : ℕ)
    → IsFpac divisor
    → IsFpac rest
    → whole divisor < 2 ^ 59
    → whole rest < 2 * whole divisor
    → IsQuo qd quo u
    → HasRoom qd u i
    → whole (placed (div_rounds qd divisor i rest quo))
      ≡ 2 ^ i * (whole rest + u * (2 * whole divisor)) / (2 * whole divisor) * unit qd
unfolding div_rounds
div_rounds-placed qd divisor zero rest quo u p q small below v room =
    v.value ∙ ap (λ t. t * unit qd) (sym (at_end (whole rest) u (2 * whole divisor) below))
div_rounds-placed qd divisor (suc i) rest quo u p q small below v room =
    elim (Bool-cases (f_is_zero rest)) [
      | inl e ↦
          let exhausted = f_is_zero-whole rest e in
          let fits : u * unit qd * 2 ^ suc i < 2 ^ 64 =
            omega (arith, room_split qd u (suc i), room) in
          rw (e, lt→ltb 0 (suc i) (omega arith))
            (shifted_out qd quo u (2 * whole divisor) (suc i) (omega (arith, below)) v fits
              ∙ ap (λ t. 2 ^ suc i * (t + u * (2 * whole divisor)) / (2 * whole divisor) * unit qd)
                  (sym exhausted))
      | inr e ↦
          let out = div_round qd divisor rest quo in
          let round =
            div_round-IsRound qd divisor rest quo u p q small below v
              (room_now qd u (suc i) room) in
          let done =
            div_rounds-placed qd divisor i out.rest out.quo (2 * u + round.found) p
              round.rest_halves small round.smaller round.quo
              (room_next qd u round.found i round.one_bit room) in
          rw e (
            done
            ∙ ap (λ t. t / (2 * whole divisor) * unit qd)
                (round_sum (whole rest) (whole out.rest) u round.found (whole divisor) i
                  round.left))
    ]

-- The quotient of a division of two guarded fractions, of which the divisor has its leading bit, is
-- exact: 58 bits after the point in double precision, and 26, in the upper half, in single
-- precision, and the loop that ends early and shifts gives the same as the loop that does not.
pub div_frac-exact :
    (qd : Bool) (divisor dividend : Fpac)
    → IsFpac divisor
    → IsFpac dividend
    → whole divisor < 2 ^ 59
    → whole dividend < 2 * whole divisor
    → whole (div_frac qd divisor dividend)
      ≡ 2 ^ div_count qd * whole dividend / (2 * whole divisor) * unit qd
unfolding div_frac
div_frac-exact qd divisor dividend p q small below =
    div_rounds-placed qd divisor (div_count qd) dividend zero_fac 0 p q small below (no_bits qd)
      (first_room qd)
    ∙ ap (λ t. 2 ^ div_count qd * t / (2 * whole divisor) * unit qd)
        (plus_none (whole dividend) (2 * whole divisor))
