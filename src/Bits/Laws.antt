-- ===== src/Bits/Laws.antt =====
-- What the code relies on of masks: setting, clearing, merging and keeping fields.
use native.Mathlib.Nat.{pow-suc, one-le-pow, mod-eq_of_lt}
use emulator_pdp.Prelude.{
  ℕ, zero, suc, ◌+◌, ◌-◌, ◌*◌, ◌/◌, ◌%◌, ◌^◌, ◌≤◌, ◌<◌, min, bit_and, bit_or, and_not, ◌≡◌, ap, sym,
  ◌∙◌, arith, u16,
}
use emulator_pdp.Bits.Step.{bit_and_step}
use emulator_pdp.Bits.Core.{bit, bit-lt, bit-bit_and, bit-bit_or, bit-and_not, bit-zero, bit_ext}

pub bit_and_comm : (a b : ℕ) → bit_and a b ≡ bit_and b a
bit_and_comm a b = bit_ext _ _ λ k. omega (arith, bit-bit_and k a b, bit-bit_and k b a)

pub bit_and_assoc : (a b c : ℕ) → bit_and (bit_and a b) c ≡ bit_and a (bit_and b c)
bit_and_assoc a b c = bit_ext _ _ λ k. omega (
  arith,
  bit-bit_and k a b,
  bit-bit_and k b c,
  bit-bit_and k (bit_and a b) c,
  bit-bit_and k a (bit_and b c),
)

pub bit_and_self : (a : ℕ) → bit_and a a ≡ a
bit_and_self a = bit_ext _ _ λ k. omega (arith, bit-bit_and k a a)

pub bit_and-zero : (a : ℕ) → bit_and a 0 ≡ 0
bit_and-zero a = bit_ext _ _ λ k. omega (arith, bit-bit_and k a 0, bit-zero k)

pub bit_or-zero : (a : ℕ) → bit_or a 0 ≡ a
bit_or-zero a = bit_ext _ _ λ k. omega (arith, bit-bit_or k a 0, bit-zero k)

-- Disjoint masks have no bit in common.
disjoint_bits : (m n : ℕ) → bit_and m n ≡ 0 → (k : ℕ) → min (bit k m) (bit k n) ≡ 0
disjoint_bits m n h k =
    let e : bit k (bit_and m n) ≡ 0 = ap (bit k) h ∙ bit-zero k in
    omega (arith, bit-bit_and k m n, e)

-- A set bit reads as set.
pub bit_or-bit_and : (x m : ℕ) → bit_and (bit_or x m) m ≡ m
bit_or-bit_and x m = bit_ext _ _ λ k. omega (arith, bit-bit_and k (bit_or x m) m, bit-bit_or k x m)

-- A cleared bit reads as clear.
pub and_not-bit_and : (x m : ℕ) → bit_and (and_not x m) m ≡ 0
and_not-bit_and x m = bit_ext _ _ λ k.
    omega
      (arith, bit-bit_and k (and_not x m) m, bit-and_not k x m, bit-zero k, bit-lt k x, bit-lt k m)

-- The other bits stay.
pub bit_or-bit_and_other : (x m n : ℕ) → bit_and m n ≡ 0 → bit_and (bit_or x m) n ≡ bit_and x n
bit_or-bit_and_other x m n h = bit_ext _ _ λ k. omega (
  arith,
  bit-bit_and k (bit_or x m) n,
  bit-bit_or k x m,
  bit-bit_and k x n,
  disjoint_bits m n h k,
  bit-lt k x,
  bit-lt k m,
  bit-lt k n,
)

pub and_not-bit_and_other : (x m n : ℕ) → bit_and m n ≡ 0 → bit_and (and_not x m) n ≡ bit_and x n
and_not-bit_and_other x m n h = bit_ext _ _ λ k. omega (
  arith,
  bit-bit_and k (and_not x m) n,
  bit-and_not k x m,
  bit-bit_and k x n,
  disjoint_bits m n h k,
  bit-lt k x,
  bit-lt k m,
  bit-lt k n,
)

-- A merge `(x & ~m) | (v & m)` reads the new value under the mask and the old one elsewhere.
pub merge-under : (x v m : ℕ) → bit_and (bit_or (and_not x m) (bit_and v m)) m ≡ bit_and v m
merge-under x v m = bit_ext _ _ λ k. omega (
  arith,
  bit-bit_and k (bit_or (and_not x m) (bit_and v m)) m,
  bit-bit_or k (and_not x m) (bit_and v m),
  bit-and_not k x m,
  bit-bit_and k v m,
  bit-lt k x,
  bit-lt k m,
)

pub merge-other :
    (x v m n : ℕ) → bit_and m n ≡ 0 → bit_and (bit_or (and_not x m) (bit_and v m)) n ≡ bit_and x n
merge-other x v m n h = bit_ext _ _ λ k. omega (
  arith,
  bit-bit_and k (bit_or (and_not x m) (bit_and v m)) n,
  bit-bit_or k (and_not x m) (bit_and v m),
  bit-and_not k x m,
  bit-bit_and k v m,
  bit-bit_and k x n,
  disjoint_bits m n h k,
  bit-lt k x,
  bit-lt k m,
  bit-lt k n,
)

pub mul-two_pow_suc : (q k : ℕ) → q * 2 ^ suc k ≡ 2 * (q * 2 ^ k)
mul-two_pow_suc q k = omega (arith, ap (λ (t : ℕ). q * t) (pow-suc 2 k))

low_part : (k q r : ℕ) → r < 2 ^ k → bit_and (q * 2 ^ k + r) (2 ^ k - 1) ≡ r
low_part zero q r fits = omega (arith, bit_and-zero (q * 2 ^ 0 + r))
low_part (suc k) q r fits =
    let half : (q * 2 ^ suc k + r) / 2 ≡ q * 2 ^ k + r / 2 = omega (arith, mul-two_pow_suc q k) in
    let ones : (2 ^ suc k - 1) / 2 ≡ 2 ^ k - 1 = omega (arith, pow-suc 2 k, one-le-pow k 2) in
    let digit : (q * 2 ^ suc k + r) % 2 ≡ r % 2 = omega (arith, mul-two_pow_suc q k) in
    let odd : (2 ^ suc k - 1) % 2 ≡ 1 = omega (arith, pow-suc 2 k, one-le-pow k 2) in
    let rest = low_part k q (r / 2) (omega (arith, pow-suc 2 k)) in
    bit_and_step _ _ ∙ rw (half, ones, digit, odd, rest) (omega arith)

-- A mask of `k` low bits is the remainder by `2 ^ k`.
pub bit_and_low : (k a : ℕ) → bit_and a (2 ^ k - 1) ≡ a % 2 ^ k
bit_and_low k a = ground (arith, one-le-pow k 2, low_part k (a / 2 ^ k) (a % 2 ^ k))

-- A number below `2 ^ k` is not changed by such a mask.
pub bit_and_low_of_lt : (k a : ℕ) → a < 2 ^ k → bit_and a (2 ^ k - 1) ≡ a
bit_and_low_of_lt k a h = bit_and_low k a ∙ mod-eq_of_lt h

pub bit_and-le : (a b : ℕ) → bit_and a b ≤ b
bit_and-le a b = below b a b (omega arith)
  where
    below : (n a b : ℕ) → b ≤ n → bit_and a b ≤ b
    below zero a b h =
        omega (arith, bit_and-zero a, ap (bit_and a) (let e : b ≡ 0 = omega arith in e))
    below (suc n) a b h = omega (arith, bit_and_step a b, below n (a / 2) (b / 2) (omega arith))

-- The wrap-around to 16 bits keeps every bit of a mask below 2^16.
pub bit_and-u16 : (x m : ℕ) → bit_and (2 ^ 16 - 1) m ≡ m → bit_and (u16 x) m ≡ bit_and x m
bit_and-u16 x m h =
    ap (λ t. bit_and t m) (sym (bit_and_low 16 x))
    ∙ bit_and_assoc x (2 ^ 16 - 1) m
    ∙ ap (bit_and x) h
