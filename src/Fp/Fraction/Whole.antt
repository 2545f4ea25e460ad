-- ===== src/Fp/Fraction/Whole.antt =====
-- src/core/fp/fp.c: the macros on two halves are arithmetic on one number of 64 bits.
use emulator_pdp.Prelude.{
  ℕ, ◌+◌, ◌-◌, ◌*◌, ◌/◌, ◌%◌, ◌^◌, ◌≤◌, ◌<◌, ltb, bit_and, bit_or, ap, ◌≡◌, ==_iff, true, arith,
}
use emulator_pdp.Bits.{
  bit_and_low, bit_and-le, bit_and_comm, bit_or-add-bit_and, bit_or_fields, bit_or_comm,
}
use emulator_pdp.Fp.Fraction.{
  Fpac, whole, f_add, f_sub, f_lt, f_lsh_1, f_rsh_1, f_lsh_guard, f_lsh_k, f_is_zero,
}

-- The halves are of 32 bits.
pub record IsFpac (f : Fpac) : Type 0 where
  pub low : f.l < 2 ^ 32
  pub high : f.h < 2 ^ 32

pub f_add-whole :
    (s2 s1 : Fpac) → IsFpac s2 → IsFpac s1 → whole (f_add s2 s1) ≡ (whole s1 + whole s2) % 2 ^ 64
unfolding f_add
f_add-whole s2 s1 p q =
    let a = p.low in let b = p.high in let c = q.low in let d = q.high in ground arith

pub f_sub-whole :
    (s2 s1 : Fpac)
    → IsFpac s2
    → IsFpac s1
    → whole s2 ≤ whole s1
    → whole (f_sub s2 s1) ≡ whole s1 - whole s2
unfolding f_sub
f_sub-whole s2 s1 p q le =
    let a = p.low in let b = p.high in let c = q.low in let d = q.high in ground arith

pub f_lt-whole : (x y : Fpac) → IsFpac x → IsFpac y → f_lt x y ≡ ltb (whole x) (whole y)
unfolding f_lt
f_lt-whole x y p q =
    let a = p.low in let b = p.high in let c = q.low in let d = q.high in ground arith

pub f_add-IsFpac : (s2 s1 : Fpac) → IsFpac (f_add s2 s1)
unfolding f_add
f_add-IsFpac s2 s1 = record { low = ground arith; high = ground arith }

pub f_sub-IsFpac : (s2 s1 : Fpac) → IsFpac (f_sub s2 s1)
unfolding f_sub
f_sub-IsFpac s2 s1 = record { low = ground arith; high = ground arith }

-- Two parts of a half that a shift puts together do not overlap.
pub bit_or_sum : (k q d x : ℕ) → d < 2 ^ k → x ≡ q * 2 ^ k → bit_or x d ≡ x + d
bit_or_sum k q d x h e =
    omega (arith, ap (λ t. bit_or t d) e, bit_or_comm (q * 2 ^ k) d, bit_or_fields k q d h)

-- `F_LSH_1` and `F_RSH_1` double and halve.
pub f_lsh_1-whole : (f : Fpac) → IsFpac f → whole (f_lsh_1 f) ≡ whole f * 2 % 2 ^ 64
unfolding f_lsh_1
f_lsh_1-whole f p =
    let a = p.low in
    let b = p.high in
    let d = bit_and (f.l / 2 ^ 31) 1 in
    ground (
      arith,
      bit_and_low 1 (f.l / 2 ^ 31),
      bit_or_sum 1 (f.h % 2 ^ 31) d (f.h * 2 % 2 ^ 32) (omega (arith, bit_and_low 1 (f.l / 2 ^ 31)))
          (omega arith),
    )

pub f_rsh_1-whole : (f : Fpac) → IsFpac f → whole (f_rsh_1 f) ≡ whole f / 2
unfolding f_rsh_1
f_rsh_1-whole f p =
    let a = p.low in
    let b = p.high in
    ground (
      arith,
      bit_and_low 1 f.h,
      bit_and_low 31 (f.l / 2),
      bit_and_low 31 (f.h / 2),
      bit_or_fields 31 (bit_and f.h 1) (bit_and (f.l / 2) 0x7fff_ffff)
          (omega (arith, bit_and_low 31 (f.l / 2))),
    )

pub f_lsh_guard-whole : (f : Fpac) → IsFpac f → whole (f_lsh_guard f) ≡ whole f * 8 % 2 ^ 64
unfolding f_lsh_k
f_lsh_guard-whole f p =
    let a = p.low in
    let b = p.high in
    let d = bit_and (f.l / 2 ^ 29) 7 in
    ground (
      arith,
      bit_and_low 3 (f.l / 2 ^ 29),
      bit_or_sum 3 (f.h % 2 ^ 29) d (f.h * 8 % 2 ^ 32) (omega (arith, bit_and_low 3 (f.l / 2 ^ 29)))
          (omega arith),
    )

pub f_lsh_1-IsFpac : (f : Fpac) → IsFpac (f_lsh_1 f)
unfolding f_lsh_1
f_lsh_1-IsFpac f = record { low = omega arith; high = omega arith }

pub f_lsh_k-IsFpac : (n : ℕ) (f : Fpac) → IsFpac (f_lsh_k n f)
unfolding f_lsh_k
f_lsh_k-IsFpac n f = record { low = omega arith; high = omega arith }

pub f_rsh_1-IsFpac : (f : Fpac) → IsFpac f → IsFpac (f_rsh_1 f)
unfolding f_rsh_1
f_rsh_1-IsFpac f p =
    let b = p.high in
    let q : bit_and (f.h / 2) 0x7fff_ffff < 2 ^ 32 = omega (arith, bit_and_low 31 (f.h / 2)) in
    let d : bit_and (f.l / 2) 0x7fff_ffff < 2 ^ 31 = omega (arith, bit_and_low 31 (f.l / 2)) in
    record {
      low = omega (
        arith,
        d,
        bit_and_low 1 f.h,
        bit_or_fields 31 (bit_and f.h 1) (bit_and (f.l / 2) 0x7fff_ffff) d,
      );
      high = q;
    }

-- Two fractions that stand for the same number are the same.
pub whole_injective : (f g : Fpac) → IsFpac f → IsFpac g → whole f ≡ whole g → f ≡ g
whole_injective f g p q e =
    let a = p.low in
    let b = q.low in
    let el : f.l ≡ g.l = omega (arith, a, b, e) in
    let eh : f.h ≡ g.h = omega (arith, a, b, e) in λ i. record { l = el i; h = eh i }

pub bit_or_zero_parts : (a b : ℕ) → bit_or a b ≡ 0 → (a ≡ 0) × (b ≡ 0)
bit_or_zero_parts a b e =
    let joined = bit_or-add-bit_and a b in
    (
      omega (arith, e, joined, bit_and-le a b),
      omega (arith, e, joined, bit_and_comm a b, bit_and-le b a),
    )

pub f_is_zero-whole : (f : Fpac) → f_is_zero f ≡ true → whole f ≡ 0
unfolding f_is_zero
f_is_zero-whole f e =
    let parts = bit_or_zero_parts f.h f.l ((==_iff (bit_or f.h f.l) 0).0 e) in
    omega (arith, parts.0, parts.1)
