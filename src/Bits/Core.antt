-- ===== src/Bits/Core.antt =====
-- Laws of `&`, `|`, `^` and `& ~` at variables, bit by bit and at every width.
use emulator_pdp.Bits.Step.{bit_and_step, bit_or_step, bit_xor_step}
use emulator_pdp.Prelude.{
  ◌^◌, ℕ, zero, suc, ◌+◌, ◌-◌, ◌/◌, ◌%◌, ◌≤◌, ◌<◌, min, max, bit_and, bit_or, bit_xor, and_not, ◌≡◌,
  refl, arith,
}

-- Bit `k` of `x`, by recursion on `k`.
pub bit : ℕ → ℕ → ℕ
bit zero x = x % 2
bit (suc k) x = bit k (x / 2)

pub bit-lt : (k x : ℕ) → bit k x < 2
unfolding bit
bit-lt zero x = omega arith
bit-lt (suc k) x = bit-lt k (x / 2)

pub bit-bit_and : (k a b : ℕ) → bit k (bit_and a b) ≡ min (bit k a) (bit k b)
unfolding bit
bit-bit_and zero a b = omega (arith, bit_and_step a b)
bit-bit_and (suc k) a b =
    let e : bit_and a b / 2 ≡ bit_and (a / 2) (b / 2) = omega (arith, bit_and_step a b) in
    rw e (bit-bit_and k (a / 2) (b / 2))

pub bit-bit_or : (k a b : ℕ) → bit k (bit_or a b) ≡ max (bit k a) (bit k b)
unfolding bit
bit-bit_or zero a b = omega (arith, bit_or_step a b)
bit-bit_or (suc k) a b =
    let e : bit_or a b / 2 ≡ bit_or (a / 2) (b / 2) = omega (arith, bit_or_step a b) in
    rw e (bit-bit_or k (a / 2) (b / 2))

pub bit-bit_xor : (k a b : ℕ) → bit k (bit_xor a b) ≡ (bit k a + bit k b) % 2
unfolding bit
bit-bit_xor zero a b = omega (arith, bit_xor_step a b)
bit-bit_xor (suc k) a b =
    let e : bit_xor a b / 2 ≡ bit_xor (a / 2) (b / 2) = omega (arith, bit_xor_step a b) in
    rw e (bit-bit_xor k (a / 2) (b / 2))

ext_below : (n a b : ℕ) → a ≤ n → b ≤ n → ((k : ℕ) → bit k a ≡ bit k b) → a ≡ b
unfolding bit
ext_below zero a b p q h = omega arith
ext_below (suc n) a b p q h =
    let halves : a / 2 ≡ b / 2 =
      ext_below n (a / 2) (b / 2) (omega arith) (omega arith) (λ k. h (suc k)) in
    let lows : a % 2 ≡ b % 2 = h 0 in omega arith

-- Two numbers with the same bits are equal.
pub bit_ext : (a b : ℕ) → ((k : ℕ) → bit k a ≡ bit k b) → a ≡ b
bit_ext a b h = ext_below (a + b) a b (omega arith) (omega arith) h

pub bit-and_not : (k a b : ℕ) → bit k (and_not a b) ≡ bit k a - bit k b
bit-and_not k a b =
    omega (arith, bit-bit_xor k a (bit_and a b), bit-bit_and k a b, bit-lt k a, bit-lt k b)

pub bit-zero : (k : ℕ) → bit k 0 ≡ 0
unfolding bit
bit-zero zero = refl
bit-zero (suc k) = bit-zero k

pub bit-7 : (x : ℕ) → bit 7 x ≡ x / 2 ^ 7 % 2
unfolding bit
bit-7 x = omega arith

pub bit-15 : (x : ℕ) → bit 15 x ≡ x / 2 ^ 15 % 2
unfolding bit
bit-15 x = omega arith
