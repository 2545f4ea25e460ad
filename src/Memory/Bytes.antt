-- ===== src/Memory/Bytes.antt =====
-- src/core/memory as an array of bytes: what the byte and word routines mean to a byte-addressed store.
use emulator_pdp.Prelude.{
  ℕ, ◌+◌, ◌-◌, ◌*◌, ◌/◌, ◌%◌, ◌^◌, ◌<◌, bit_and, bit_or, ◌==◌, if◌then◌else◌, ◌<<<◌, u16, ◌≡◌,
  arith,
}
use emulator_pdp.Bits.{bit_and_low, bit_and_upper, bit_or_fields, bit_or_comm}
use emulator_pdp.Memory.{read_word, write_word, read_byte, write_byte}

-- Every word of memory has 16 bits.
abbrev pub IsMemory : (ℕ → ℕ) → Type 0
IsMemory m = (i : ℕ) → m i < 2 ^ 16

-- The cell of the 22-bit space that an address names.
abbrev pub cell : ℕ → ℕ
cell addr = addr % 2 ^ 22

read_byte_lem :
    (m : ℕ → ℕ) (a : ℕ)
    → IsMemory m
    → read_byte m a ≡ (if a % 2 == 1 then m (a % 2 ^ 22 / 2) / 256 else m (a % 2 ^ 22 / 2) % 256)
unfolding read_byte
read_byte_lem m a h =
    rw (bit_and_low 22 a, bit_and_low 1 a, bit_and_low 8 (m (a % 2 ^ 22 / 2)))
      (ground (arith, h (a % 2 ^ 22 / 2)))

-- What a byte write leaves in the word that holds the byte.
stored : ℕ → ℕ → ℕ → ℕ
stored a v w = if a % 2 == 1 then w % 256 + v * 256 else w - w % 256 + v

high_half : (w v : ℕ) → v < 256 → u16 (bit_or (bit_and w 0x00ff) (v <<< 8)) ≡ w % 256 + v * 256
high_half w v h = rw (bit_and_low 8 w, bit_or_fields 8 v (w % 256) (omega arith)) (omega arith)

low_half : (w v : ℕ) → w < 2 ^ 16 → v < 256 → u16 (bit_or (bit_and w 0xff00) v) ≡ w - w % 256 + v
low_half w v hw h =
    let upper : bit_and w 0xff00 ≡ w / 256 * 2 ^ 8 = omega (arith, bit_and_upper w) in
    rw (upper, bit_or_comm (w / 256 * 2 ^ 8) v, bit_or_fields 8 (w / 256) v h) (omega arith)

write_byte_lem :
    (m : ℕ → ℕ) (a v i : ℕ)
    → IsMemory m
    → v < 256
    → write_byte m a v i ≡ (if a % 2 ^ 22 / 2 == i then stored a v (m (a % 2 ^ 22 / 2)) else m i)
unfolding write_byte stored
write_byte_lem m a v i hm h =
    let w = m (a % 2 ^ 22 / 2) in
    rw (bit_and_low 22 a, bit_and_low 1 a)
      (ground (arith, hm (a % 2 ^ 22 / 2), high_half w v h, low_half w v (hm (a % 2 ^ 22 / 2)) h))

-- Memory of 16-bit words stays so under a byte write.
pub write_byte-IsMemory : (m : ℕ → ℕ) (a v : ℕ) → IsMemory m → v < 256 → IsMemory (write_byte m a v)
unfolding stored
write_byte-IsMemory m a v hm h i =
    rw (write_byte_lem m a v i hm h) (ground (arith, hm i, hm (a % 2 ^ 22 / 2)))

-- In memory of 16-bit words a byte write changes one cell: reading any address `b` after the byte
-- `v` was written at `a` gives `v` where both name the same cell of the 22-bit space, and what
-- was there before elsewhere.
pub read_byte-write_byte :
    (m : ℕ → ℕ) (a b v : ℕ)
    → IsMemory m
    → v < 256
    → read_byte (write_byte m a v) b ≡ (if cell a == cell b then v else read_byte m b)
unfolding stored
read_byte-write_byte m a b v hm h = ground (
  arith,
  read_byte_lem (write_byte m a v) b (write_byte-IsMemory m a v hm h),
  read_byte_lem m b hm,
  write_byte_lem m a v (b % 2 ^ 22 / 2) hm h,
  hm (b % 2 ^ 22 / 2),
)

read_word_lem : (m : ℕ → ℕ) (a : ℕ) → read_word m a ≡ m (a % 2 ^ 22 / 2)
unfolding read_word
read_word_lem m a = rw (bit_and_low 22 a)

-- In memory of 16-bit words a word is little-endian: its low byte stands at the even address of
-- the pair and its high byte at the odd one, whichever of the two is asked for.
pub read_word-bytes :
    (m : ℕ → ℕ) (a : ℕ)
    → IsMemory m
    → read_word m a ≡ read_byte m (a / 2 * 2) + 256 * read_byte m (a / 2 * 2 + 1)
read_word-bytes m a hm =
    let even : a / 2 * 2 % 2 ^ 22 / 2 ≡ a % 2 ^ 22 / 2 = omega arith in
    let odd : (a / 2 * 2 + 1) % 2 ^ 22 / 2 ≡ a % 2 ^ 22 / 2 = omega arith in
    let e0 = read_byte_lem m (a / 2 * 2) hm in
    let e1 = read_byte_lem m (a / 2 * 2 + 1) hm in
    rw (read_word_lem m a, e0, e1, even, odd) (ground (arith, hm (a % 2 ^ 22 / 2)))

write_word_lem :
    (m : ℕ → ℕ) (a v i : ℕ) → write_word m a v i ≡ (if a % 2 ^ 22 / 2 == i then v else m i)
unfolding write_word
write_word_lem m a v i = rw (bit_and_low 22 a)

pub write_word-IsMemory :
    (m : ℕ → ℕ) (a v : ℕ) → IsMemory m → v < 2 ^ 16 → IsMemory (write_word m a v)
write_word-IsMemory m a v hm h i = rw (write_word_lem m a v i) (ground (arith, hm i))

-- In memory of 16-bit words a word write is two byte writes: byte `b` is afterwards the low byte
-- of `v` at the even address of the pair that `a` names, the high byte at the odd one, and
-- unchanged elsewhere.
pub read_byte-write_word :
    (m : ℕ → ℕ) (a b v : ℕ)
    → IsMemory m
    → v < 2 ^ 16
    → read_byte (write_word m a v) b ≡ (
        if cell a / 2 == cell b / 2
        then (if b % 2 == 1 then v / 256 else v % 256)
        else read_byte m b)
read_byte-write_word m a b v hm h = ground (
  arith,
  read_byte_lem (write_word m a v) b (write_word-IsMemory m a v hm h),
  read_byte_lem m b hm,
  write_word_lem m a v (b % 2 ^ 22 / 2),
)
