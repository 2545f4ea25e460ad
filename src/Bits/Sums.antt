-- ===== src/Bits/Sums.antt =====
-- The bit operations as sums: what `|`, `^` and `& ~` are where fields are disjoint.
use native.Mathlib.Nat.{pow-suc}
use emulator_pdp.Prelude.{
  ℕ, zero, suc, ◌+◌, ◌-◌, ◌*◌, ◌/◌, ◌%◌, ◌^◌, ◌≤◌, ◌<◌, bit_and, bit_or, bit_xor, and_not, ◌≡◌,
  refl, ap, ◌∙◌, arith,
}
use emulator_pdp.Bits.Step.{bit_and_step, bit_or_step, bit_xor_step}
use emulator_pdp.Bits.Core.{bit-bit_and, bit-bit_or, bit_ext}
use emulator_pdp.Bits.Laws.{bit_and_low, bit_and-zero, bit_and_comm, mul-two_pow_suc}

-- Each is proved with a bound `n` on both numbers, which halve.
or_sum : (n a b : ℕ) → a + b ≤ n → bit_or a b + bit_and a b ≡ a + b
or_sum zero a b h = let ea : a ≡ 0 = omega arith in let eb : b ≡ 0 = omega arith in rw (ea, eb) refl
or_sum (suc n) zero zero h = refl
or_sum (suc n) zero (suc b) h =
    omega
      (arith, bit_or_step 0 (suc b), bit_and_step 0 (suc b), or_sum n 0 (suc b / 2) (omega arith))
or_sum (suc n) (suc a) b h = omega (
  arith,
  bit_or_step (suc a) b,
  bit_and_step (suc a) b,
  or_sum n (suc a / 2) (b / 2) (omega arith),
)

pub bit_or-add-bit_and : (a b : ℕ) → bit_or a b + bit_and a b ≡ a + b
bit_or-add-bit_and a b = or_sum (a + b) a b (omega arith)

xor_sum : (n a b : ℕ) → a + b ≤ n → bit_xor a b + 2 * bit_and a b ≡ a + b
xor_sum zero a b h =
    let ea : a ≡ 0 = omega arith in let eb : b ≡ 0 = omega arith in rw (ea, eb) refl
xor_sum (suc n) zero zero h = refl
xor_sum (suc n) zero (suc b) h =
    omega
      (arith, bit_xor_step 0 (suc b), bit_and_step 0 (suc b), xor_sum n 0 (suc b / 2) (omega arith))
xor_sum (suc n) (suc a) b h = omega (
  arith,
  bit_xor_step (suc a) b,
  bit_and_step (suc a) b,
  xor_sum n (suc a / 2) (b / 2) (omega arith),
)

pub bit_xor-add-bit_and : (a b : ℕ) → bit_xor a b + 2 * bit_and a b ≡ a + b
bit_xor-add-bit_and a b = xor_sum (a + b) a b (omega arith)

and_and : (a b : ℕ) → bit_and a (bit_and a b) ≡ bit_and a b
and_and a b = bit_ext _ _ λ k. omega (arith, bit-bit_and k a (bit_and a b), bit-bit_and k a b)

pub and_not-add-bit_and : (a b : ℕ) → and_not a b + bit_and a b ≡ a
and_not-add-bit_and a b = omega (arith, bit_xor-add-bit_and a (bit_and a b), and_and a b)

-- A value below `2 ^ k` and a multiple of it have no bit in common.
pub bit_and_fields : (k q r : ℕ) → r < 2 ^ k → bit_and r (q * 2 ^ k) ≡ 0
bit_and_fields zero q r h =
    let e : r ≡ 0 = omega arith in rw e (bit_and_comm 0 (q * 2 ^ 0) ∙ bit_and-zero (q * 2 ^ 0))
bit_and_fields (suc k) q r h =
    let half : q * 2 ^ suc k / 2 ≡ q * 2 ^ k = omega (arith, mul-two_pow_suc q k) in
    let even : q * 2 ^ suc k % 2 ≡ 0 = omega (arith, mul-two_pow_suc q k) in
    let rest = bit_and_fields k q (r / 2) (omega (arith, pow-suc 2 k)) in
    bit_and_step r (q * 2 ^ suc k) ∙ rw (half, even, rest) (omega arith)

-- `r | (q << k)` is a sum where `r` fits in `k` bits.
pub bit_or_fields : (k q r : ℕ) → r < 2 ^ k → bit_or r (q * 2 ^ k) ≡ r + q * 2 ^ k
bit_or_fields k q r h = omega (arith, bit_or-add-bit_and r (q * 2 ^ k), bit_and_fields k q r h)

pub bit_or_comm : (a b : ℕ) → bit_or a b ≡ bit_or b a
bit_or_comm a b = omega (arith, bit_or-add-bit_and a b, bit_or-add-bit_and b a, bit_and_comm a b)

-- A mask of two disjoint parts picks each part.
pub bit_and_parts : (x m n : ℕ) → bit_and m n ≡ 0 → bit_and x (m + n) ≡ bit_and x m + bit_and x n
bit_and_parts x m n h =
    let joined : bit_or m n ≡ m + n = omega (arith, bit_or-add-bit_and m n) in
    let spread : bit_and x (bit_or m n) ≡ bit_or (bit_and x m) (bit_and x n) = bit_ext _ _ (λ k.
      omega (
        arith,
        bit-bit_and k x (bit_or m n),
        bit-bit_or k m n,
        bit-bit_or k (bit_and x m) (bit_and x n),
        bit-bit_and k x m,
        bit-bit_and k x n,
      )) in
    let apart : bit_and (bit_and x m) (bit_and x n) ≡ bit_and x (bit_and m n) = bit_ext _ _ (λ k.
      omega (
        arith,
        bit-bit_and k (bit_and x m) (bit_and x n),
        bit-bit_and k x (bit_and m n),
        bit-bit_and k m n,
        bit-bit_and k x m,
        bit-bit_and k x n,
      )) in
    omega (
      arith,
      ap (bit_and x) joined,
      spread,
      apart,
      ap (bit_and x) h,
      bit_and-zero x,
      bit_or-add-bit_and (bit_and x m) (bit_and x n),
    )

-- The bits of `x` from `k` up to `j`, in place.
pub bit_and_upper : (x : ℕ) → bit_and x 0xff00 ≡ x % 2 ^ 16 - x % 2 ^ 8
bit_and_upper x = omega (arith, bit_and_parts x 0xff 0xff00 refl, bit_and_low 16 x, bit_and_low 8 x)

pub bit_xor_comm : (a b : ℕ) → bit_xor a b ≡ bit_xor b a
bit_xor_comm a b = omega (arith, bit_xor-add-bit_and a b, bit_xor-add-bit_and b a, bit_and_comm a b)

pub bit_xor-lt : (k a b : ℕ) → a < 2 ^ k → b < 2 ^ k → bit_xor a b < 2 ^ k
bit_xor-lt zero a b ha hb = omega (arith, bit_xor-add-bit_and a b)
bit_xor-lt (suc k) a b ha hb =
    let rest =
      bit_xor-lt k (a / 2) (b / 2) (omega (arith, pow-suc 2 k)) (omega (arith, pow-suc 2 k)) in
    omega (arith, rest, bit_xor_step a b, pow-suc 2 k)
