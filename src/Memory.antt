-- ===== src/Memory.antt =====
-- src/core/memory: physical memory, 2 Miwords addressed by byte, the low byte at the even address.
pub mod Bytes
pub mod Store
use emulator_pdp.Prelude.{
  ℕ, ◌-◌, ◌*◌, ◌^◌, bit_and, bit_or, tst, if◌then◌else◌, ◌>>>◌, ◌<<<◌, u8, u16, update,
}

abbrev pub mem_words : ℕ
mem_words = 2 ^ 21

abbrev pub mem_bytes : ℕ
mem_bytes = mem_words * 2

unfoldable pub reset : (ℕ → ℕ) → ℕ → ℕ
reset m i = 0

unfoldable pub read_word : (ℕ → ℕ) → ℕ → ℕ
read_word m addr = m (bit_and addr (mem_bytes - 1) >>> 1)

unfoldable pub write_word : (ℕ → ℕ) → ℕ → ℕ → ℕ → ℕ
write_word m addr value = update m (bit_and addr (mem_bytes - 1) >>> 1) value

unfoldable pub read_byte : (ℕ → ℕ) → ℕ → ℕ
unfolding read_word
read_byte m addr =
    let word = read_word m addr in u8 (if tst addr 1 then word >>> 8 else bit_and word 0xff)

unfoldable pub write_byte : (ℕ → ℕ) → ℕ → ℕ → ℕ → ℕ
write_byte m addr value =
    let windex = bit_and addr (mem_bytes - 1) >>> 1 in
    let word = m windex in
    if tst addr 1
    then update m windex (u16 (bit_or (bit_and word 0x00ff) (value <<< 8)))
    else update m windex (u16 (bit_or (bit_and word 0xff00) value))
