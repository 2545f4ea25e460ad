-- ===== src/Hash/OneByte.antt =====
-- src/core/cpu/cpu.c: what `fnv1a` tells apart.
use emulator_pdp.Prelude.{
  ℕ, ◌*◌, ◌^◌, ◌<◌, bit_xor, u64, ◌≡◌, ◌≢◌, ap, sym, ◌∙◌, refl, arith, List, [], ◌∷◌, ◌++◌,
}
use emulator_pdp.Bits.{bit, bit-lt, bit-bit_xor, bit_ext, bit_xor_comm, bit_xor-lt}
use emulator_pdp.Hash.{fnv_byte, fnv_prime, fnv1a}

-- The prime has an inverse modulo 2^64.
prime_inverse : (x : ℕ) → x < 2 ^ 64 → u64 (u64 (x * fnv_prime) * 0xce96_5057_aff6_957b) ≡ x
prime_inverse x h = omega (arith, h)

prime_cancels :
    (x y : ℕ) → x < 2 ^ 64 → y < 2 ^ 64 → u64 (x * fnv_prime) ≡ u64 (y * fnv_prime) → x ≡ y
prime_cancels x y hx hy e =
    sym (prime_inverse x hx) ∙ ap (λ t. u64 (t * 0xce96_5057_aff6_957b)) e ∙ prime_inverse y hy

xor_cancels : (x y b : ℕ) → bit_xor x b ≡ bit_xor y b → x ≡ y
xor_cancels x y b e = bit_ext x y (λ k.
    omega (
      arith,
      bit-bit_xor k x b,
      bit-bit_xor k y b,
      ap (bit k) e,
      bit-lt k x,
      bit-lt k y,
      bit-lt k b,
    ))

-- A round is injective in the hash and in the byte.
fnv_byte-hash :
    (x y b : ℕ) → x < 2 ^ 64 → y < 2 ^ 64 → b < 256 → fnv_byte x b ≡ fnv_byte y b → x ≡ y
fnv_byte-hash x y b hx hy hb e = xor_cancels x y b (
    prime_cancels (bit_xor x b) (bit_xor y b) (bit_xor-lt 64 x b hx (omega (arith, hb)))
      (bit_xor-lt 64 y b hy (omega (arith, hb))) e)

fnv_byte-byte : (h a b : ℕ) → h < 2 ^ 64 → a < 256 → b < 256 → fnv_byte h a ≡ fnv_byte h b → a ≡ b
fnv_byte-byte h a b hh ha hb e = xor_cancels a b h (
    bit_xor_comm a h
    ∙ prime_cancels (bit_xor h a) (bit_xor h b) (bit_xor-lt 64 h a hh (omega (arith, ha)))
        (bit_xor-lt 64 h b hh (omega (arith, hb))) e
    ∙ bit_xor_comm h b)

-- The bytes of an object.
unfoldable pub AreBytes : List ℕ → Type 0
AreBytes [] = Unit
AreBytes (b ∷ bs) = (b < 256) × AreBytes bs

fnv_byte-lt : (h b : ℕ) → fnv_byte h b < 2 ^ 64
fnv_byte-lt h b = omega arith

fnv1a-hash :
    (bs : List ℕ) (x y : ℕ)
    → AreBytes bs
    → x < 2 ^ 64
    → y < 2 ^ 64
    → fnv1a x bs ≡ fnv1a y bs
    → x ≡ y
unfolding fnv1a AreBytes
fnv1a-hash [] x y p hx hy e = e
fnv1a-hash (b ∷ bs) x y p hx hy e =
    fnv_byte-hash x y b hx hy (p.0)
      (fnv1a-hash bs (fnv_byte x b) (fnv_byte y b) (p.1) (fnv_byte-lt x b) (fnv_byte-lt y b) e)

fnv1a-lt : (bs : List ℕ) (h : ℕ) → h < 2 ^ 64 → fnv1a h bs < 2 ^ 64
unfolding fnv1a
fnv1a-lt [] h p = p
fnv1a-lt (b ∷ bs) h p = fnv1a-lt bs (fnv_byte h b) (fnv_byte-lt h b)

fnv1a-append : (xs ys : List ℕ) (h : ℕ) → fnv1a h (xs ++ ys) ≡ fnv1a (fnv1a h xs) ys
unfolding fnv1a
fnv1a-append [] ys h = refl
fnv1a-append (x ∷ xs) ys h = fnv1a-append xs ys (fnv_byte h x)

-- Two strings of bytes that differ in one byte have different hashes, from the same start of 64
-- bits, wherever the byte stands and whatever comes before and after it.
pub fnv1a-one_byte :
    (before after : List ℕ) (a b h : ℕ)
    → AreBytes after
    → a < 256
    → b < 256
    → h < 2 ^ 64
    → a ≢ b
    → fnv1a h (before ++ (a ∷ after)) ≢ fnv1a h (before ++ (b ∷ after))
unfolding fnv1a
fnv1a-one_byte before after a b h p ha hb hh differ e =
    let start = fnv1a h before in
    let same : fnv1a start (a ∷ after) ≡ fnv1a start (b ∷ after) =
      sym (fnv1a-append before (a ∷ after) h) ∙ e ∙ fnv1a-append before (b ∷ after) h in
    differ (
      fnv_byte-byte start a b (fnv1a-lt before h hh) ha hb (
        fnv1a-hash after (fnv_byte start a) (fnv_byte start b) p (fnv_byte-lt start a)
          (fnv_byte-lt start b) same))
