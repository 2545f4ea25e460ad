-- ===== src/Fp/Mul/Exact.antt =====
-- src/core/fp/fp.c: the shift-and-add multiply is exact, but for the places that it drops.
use native.Mathlib.Nat.{
  add-mul, mul-le-mul_right, mul_right_comm, mul_left_comm, div-div-eq-div-mul, pow-succ',
}
use emulator_pdp.Prelude.{
  ℕ, zero, suc, ◌+◌, ◌*◌, ◌/◌, ◌%◌, ◌^◌, ◌≤◌, ◌<◌, bit_and, bit_or, ap, sym, ◌∙◌, ◌≡◌, refl, arith,
  Bool-cases, inl, inr, ◌==◌, if◌then◌else◌, not, u32, ==_iff,
}
use emulator_pdp.Bits.{bit_and_low}
use emulator_pdp.Fp.Fraction.{Fpac, whole, f_add, f_rsh_1, zero_fac, f_lsh_guard}
use emulator_pdp.Fp.Fraction.Whole.{
  IsFpac, bit_or_zero_parts, f_add-whole, f_add-IsFpac, f_rsh_1-whole, f_rsh_1-IsFpac,
  f_lsh_guard-whole, f_lsh_k-IsFpac, whole_injective,
}
use emulator_pdp.Fp.Mul.{mul_short, mul_rounds, frac_mulfp11}

-- One round of the multiply, before the shift.
abbrev summand : ℕ → Fpac → Fpac → Fpac
summand mpy mpc result = if bit_and mpy 1 == 1 then f_add mpc result else result

-- The last bit of a factor, and the rest of it.
odd_part : (x m : ℕ) → x * m ≡ 2 * (x / 2 * m) + x % 2 * m
odd_part x m =
    let split : x ≡ x / 2 + (x / 2 + x % 2) = omega arith in
    omega
      (arith, ap (λ t. t * m) split, add-mul (x / 2) (x / 2 + x % 2) m, add-mul (x / 2) (x % 2) m)

bit_part : (x m : ℕ) → x % 2 * m ≤ m
bit_part x m = let small : x % 2 ≤ 1 = omega arith in omega (arith, mul-le-mul_right m small)

summand-whole :
    (mpy : ℕ) (mpc result : Fpac)
    → IsFpac mpc
    → IsFpac result
    → whole mpc < 2 ^ 60
    → whole result ≤ whole mpc
    → whole (summand mpy mpc result) ≡ whole result + mpy % 2 * whole mpc
summand-whole mpy mpc result p q hp hq = elim (Bool-cases (bit_and mpy 1 == 1)) [
  | inl e ↦
      let odd : mpy % 2 ≡ 1 = ground (arith, bit_and_low 1 mpy, e) in
      rw e (f_add-whole mpc result p q ∙ omega (arith, ap (λ t. t * whole mpc) odd))
  | inr e ↦
      let even : mpy % 2 ≡ 0 = ground (arith, bit_and_low 1 mpy, e) in
      rw e (omega (arith, ap (λ t. t * whole mpc) even))
]

summand-IsFpac : (mpy : ℕ) (mpc result : Fpac) → IsFpac result → IsFpac (summand mpy mpc result)
summand-IsFpac mpy mpc result q = elim (Bool-cases (bit_and mpy 1 == 1)) [
  | inl e ↦ rw e (f_add-IsFpac mpc result)
  | inr e ↦ rw e q
]

-- What the rounds leave: an exact quotient, that a further round can go on from.
record IsExact (n mpy : ℕ) (mpc result out : Fpac) : Type 0 where
  value : whole out ≡ (whole result + mpy * whole mpc) / 2 ^ n
  halves : IsFpac out
  bound : whole out ≤ whole mpc

-- One place of a quotient by a power of 2.
one_place :
    (n r mpy m : ℕ) → ((r + mpy % 2 * m) / 2 + mpy / 2 * m) / 2 ^ n ≡ (r + mpy * m) / 2 ^ suc n
one_place n r mpy m =
    let place : (r + mpy % 2 * m) / 2 + mpy / 2 * m ≡ (r + mpy * m) / 2 =
      omega (arith, odd_part mpy m) in
    ap (λ t. t / 2 ^ n) place
    ∙ div-div-eq-div-mul (r + mpy * m) 2 (2 ^ n)
    ∙ ap (λ t. (r + mpy * m) / t) (sym (pow-succ' 2 n))

mul_rounds-IsExact :
    (n mpy : ℕ) (mpc result : Fpac)
    → IsFpac mpc
    → IsFpac result
    → whole mpc < 2 ^ 60
    → whole result ≤ whole mpc
    → mpy < 2 ^ n
    → IsExact n mpy mpc result (mul_rounds n mpy mpc result)
unfolding mul_rounds
mul_rounds-IsExact zero mpy mpc result p q hp hq h =
    let none_left : mpy ≡ 0 = omega arith in
    record { value = omega (arith, ap (λ t. t * whole mpc) none_left); halves = q; bound = hq }
mul_rounds-IsExact (suc n) mpy mpc result p q hp hq h =
    let sum = summand mpy mpc result in
    let sum_halves = summand-IsFpac mpy mpc result q in
    let half : whole (f_rsh_1 sum) ≡ (whole result + mpy % 2 * whole mpc) / 2 =
      f_rsh_1-whole sum sum_halves ∙ ap (λ t. t / 2) (summand-whole mpy mpc result p q hp hq) in
    let rest =
      mul_rounds-IsExact n (mpy / 2) mpc (f_rsh_1 sum) p (f_rsh_1-IsFpac sum sum_halves) hp
        (omega (arith, half, hq, bit_part mpy (whole mpc))) (omega (arith, h, pow-succ' 2 n)) in
    record {
      value =
          rest.value
          ∙ (ap (λ t. (t + mpy / 2 * whole mpc) / 2 ^ n) half
              ∙ one_place n (whole result) mpy (whole mpc));
      halves = rest.halves;
      bound = rest.bound;
    }

-- A sum of the upper halves is the whole sum, where the other lower half is 0.
upper_sum :
    (mpc result : Fpac)
    → mpc.l ≡ 0
    → IsFpac result
    → record { l = result.l; h = u32 (result.h + mpc.h) } ≡ f_add mpc result
unfolding f_add
upper_sum mpc result e q =
    let low = q.low in
    let el : result.l ≡ u32 (result.l + mpc.l) = omega (arith, low, e) in
    let eh : u32 (result.h + mpc.h) ≡ (f_add mpc result).h = ground (arith, low, e) in
    λ i. record { l = el i; h = eh i }

-- The short multiply is the long one, where both lower halves are 0.
mul_short-mul_rounds :
    (n mpy : ℕ) (mpc result : Fpac)
    → mpc.l ≡ 0
    → IsFpac result
    → mul_short n mpy mpc result ≡ mul_rounds n mpy mpc result
unfolding mul_short mul_rounds
mul_short-mul_rounds zero mpy mpc result e q = refl
mul_short-mul_rounds (suc n) mpy mpc result e q =
    let sum = summand mpy mpc result in
    let next = f_rsh_1-IsFpac sum (summand-IsFpac mpy mpc result q) in
    ap (λ s. mul_short n (mpy / 2) mpc (f_rsh_1 (if bit_and mpy 1 == 1 then s else result)))
      (upper_sum mpc result e q)
    ∙ mul_short-mul_rounds n (mpy / 2) mpc (f_rsh_1 sum) e next

-- The 56 bits of the multiplier, by halves.
both_halves :
    (l h m : ℕ) → ((0 + l * m) / 2 ^ 32 + h * m) / 2 ^ 24 ≡ (0 + (h * 2 ^ 32 + l) * m) / 2 ^ 56
both_halves l h m = omega (arith, add-mul (h * 2 ^ 32) l m, mul_right_comm h (2 ^ 32) m)

-- The rounds over the lower half, which are left out when it is 0.
lower_rounds : ℕ → Fpac → Fpac
lower_rounds l mpc = if not (l == 0) then mul_rounds 32 l mpc zero_fac else zero_fac

zero-IsFpac : IsFpac zero_fac
zero-IsFpac = record { low = omega arith; high = omega arith }

lower_rounds-IsExact :
    (l : ℕ) (mpc : Fpac)
    → IsFpac mpc
    → whole mpc < 2 ^ 60
    → l < 2 ^ 32
    → IsExact 32 l mpc zero_fac (lower_rounds l mpc)
unfolding lower_rounds
lower_rounds-IsExact l mpc p hp h = elim (Bool-cases (l == 0)) [
  | inl e ↦
      let none_left : l ≡ 0 = ground (arith, e) in
      rw e (record {
        value = omega (arith, ap (λ t. t * whole mpc) none_left);
        halves = zero-IsFpac;
        bound = omega arith;
      })
  | inr e ↦ rw e (mul_rounds-IsExact 32 l mpc zero_fac p zero-IsFpac hp (omega arith) h)
]

-- Both loops of the multiply.
rounds_value :
    (f mpc : Fpac)
    → IsFpac mpc
    → whole mpc < 2 ^ 60
    → f.l < 2 ^ 32
    → f.h < 2 ^ 24
    → IsExact 56 (whole f) mpc zero_fac (mul_rounds 24 f.h mpc (lower_rounds f.l mpc))
rounds_value f mpc p hp hl hh =
    let low = lower_rounds-IsExact f.l mpc p hp hl in
    let high = mul_rounds-IsExact 24 f.h mpc (lower_rounds f.l mpc) p low.halves hp low.bound hh in
    record {
      value =
          high.value
          ∙ (ap (λ t. (t + f.h * whole mpc) / 2 ^ 24) low.value ∙ both_halves f.l f.h (whole mpc));
      halves = high.halves;
      bound = high.bound;
    }

guard-whole : (f : Fpac) → IsFpac f → whole f < 2 ^ 56 → whole (f_lsh_guard f) ≡ whole f * 8
guard-whole f p h = f_lsh_guard-whole f p ∙ omega (arith, h)

-- The two forms of the multiply agree.
frac_mulfp11_lem :
    (f1 f2 : Fpac)
    → frac_mulfp11 f1 f2 ≡ mul_rounds 24 f1.h (f_lsh_guard f2) (lower_rounds f1.l (f_lsh_guard f2))
unfolding frac_mulfp11 lower_rounds
frac_mulfp11_lem f1 f2 =
    let mpc = f_lsh_guard f2 in
    elim (Bool-cases (bit_or f1.l mpc.l == 0)) [
      | inl e ↦
          let halves = bit_or_zero_parts f1.l mpc.l ((==_iff (bit_or f1.l mpc.l) 0).0 e) in
          rw e (
            mul_short-mul_rounds 24 f1.h mpc zero_fac halves.1 zero-IsFpac
            ∙ ap (λ r. mul_rounds 24 f1.h mpc r) (rw (halves.0) refl))
      | inr e ↦ rw e refl
    ]

frac_mulfp11-IsExact :
    (f1 f2 : Fpac)
    → IsFpac f1
    → IsFpac f2
    → whole f1 < 2 ^ 56
    → whole f2 < 2 ^ 56
    → IsExact 56 (whole f1) (f_lsh_guard f2) zero_fac (frac_mulfp11 f1 f2)
frac_mulfp11-IsExact f1 f2 p q hp hq =
    let low = p.low in
    rw (frac_mulfp11_lem f1 f2) (
      rounds_value f1 (f_lsh_guard f2) (f_lsh_k-IsFpac 3 f2)
        (omega (arith, guard-whole f2 q hq, hq)) low (omega (arith, hp)))

-- The product of two fractions of at most 56 bits is their exact product, one of them with its
-- three guard bits, less the 56 places that the multiply drops.
pub frac_mulfp11-exact :
    (f1 f2 : Fpac)
    → IsFpac f1
    → IsFpac f2
    → whole f1 < 2 ^ 56
    → whole f2 < 2 ^ 56
    → whole (frac_mulfp11 f1 f2) ≡ whole f1 * (whole f2 * 8) / 2 ^ 56
frac_mulfp11-exact f1 f2 p q hp hq =
    let out = frac_mulfp11-IsExact f1 f2 p q hp hq in
    out.value ∙ ap (λ t. (0 + whole f1 * t) / 2 ^ 56) (guard-whole f2 q hq) ∙ omega arith

pub frac_mulfp11-IsFpac :
    (f1 f2 : Fpac)
    → IsFpac f1
    → IsFpac f2
    → whole f1 < 2 ^ 56
    → whole f2 < 2 ^ 56
    → IsFpac (frac_mulfp11 f1 f2)
frac_mulfp11-IsFpac f1 f2 p q hp hq = (frac_mulfp11-IsExact f1 f2 p q hp hq).halves

swap_guard : (a b : ℕ) → a * (b * 8) ≡ b * (a * 8)
swap_guard a b = mul_left_comm a b 8

-- The fractions of a product may be exchanged.
pub frac_mulfp11_comm :
    (f1 f2 : Fpac)
    → IsFpac f1
    → IsFpac f2
    → whole f1 < 2 ^ 56
    → whole f2 < 2 ^ 56
    → frac_mulfp11 f1 f2 ≡ frac_mulfp11 f2 f1
frac_mulfp11_comm f1 f2 p q hp hq =
    whole_injective _ _ (frac_mulfp11-IsFpac f1 f2 p q hp hq) (frac_mulfp11-IsFpac f2 f1 q p hq hp)
      (frac_mulfp11-exact f1 f2 p q hp hq
        ∙ ap (λ t. t / 2 ^ 56) (swap_guard (whole f1) (whole f2))
        ∙ sym (frac_mulfp11-exact f2 f1 q p hq hp))
