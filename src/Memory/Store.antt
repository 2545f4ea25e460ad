-- ===== src/Memory/Store.antt =====
-- src/core/memory as the implementation of a store of bytes, over any sequence of writes.
use emulator_pdp.Prelude.{
  ℕ, ◌+◌, ◌*◌, ◌/◌, ◌%◌, ◌==◌, if◌then◌else◌, u8, u16, ◌≡◌, refl, ap, ◌∙◌, arith, List, [], ◌∷◌,
}
use emulator_pdp.Memory.{read_word, write_word, read_byte, write_byte}
use emulator_pdp.Memory.Bytes.{
  IsMemory, cell, write_byte-IsMemory, write_word-IsMemory, read_byte-write_byte,
  read_byte-write_word, read_word-bytes,
}

-- A call of `mem_write_byte` or `mem_write_word`, whose value is cut to its type.
pub data Write : Type 0 where
  byte : ℕ → ℕ → Write
  word : ℕ → ℕ → Write

abbrev pub store : Write → (ℕ → ℕ) → ℕ → ℕ
store (byte a v) m = write_byte m a (u8 v)
store (word a v) m = write_word m a (u16 v)

unfoldable pub store_all : List Write → (ℕ → ℕ) → ℕ → ℕ
store_all [] m = m
store_all (w ∷ ws) m = store_all ws (store w m)

-- The store of bytes: one cell of the 22-bit space takes the value.
abbrev pub put : ℕ → ℕ → (ℕ → ℕ) → ℕ → ℕ
put a v s b = if cell a == cell b then v else s b

-- A word is its low byte at the even address and its high byte at the odd one.
abbrev pub put_all_of : Write → (ℕ → ℕ) → ℕ → ℕ
put_all_of (byte a v) s = put a (v % 256) s
put_all_of (word a v) s = put (a / 2 * 2 + 1) (v / 256 % 256) (put (a / 2 * 2) (v % 256) s)

unfoldable pub put_all : List Write → (ℕ → ℕ) → ℕ → ℕ
put_all [] s = s
put_all (w ∷ ws) s = put_all ws (put_all_of w s)

store-IsMemory : (w : Write) (m : ℕ → ℕ) → IsMemory m → IsMemory (store w m)
store-IsMemory (byte a v) m h = write_byte-IsMemory m a (u8 v) h (ground arith)
store-IsMemory (word a v) m h = write_word-IsMemory m a (u16 v) h (ground arith)

store_all-IsMemory : (ws : List Write) (m : ℕ → ℕ) → IsMemory m → IsMemory (store_all ws m)
unfolding store_all
store_all-IsMemory [] m h = h
store_all-IsMemory (w ∷ ws) m h = store_all-IsMemory ws (store w m) (store-IsMemory w m h)

-- One write does to the bytes what the store of bytes does.
store_byte :
    (w : Write) (m : ℕ → ℕ) (b : ℕ)
    → IsMemory m
    → read_byte (store w m) b ≡ put_all_of w (read_byte m) b
store_byte (byte a v) m b h = read_byte-write_byte m a b (u8 v) h (ground arith)
store_byte (word a v) m b h = ground (arith, read_byte-write_word m a b (u16 v) h (ground arith))

store_all-put_all :
    (ws : List Write) (m : ℕ → ℕ)
    → IsMemory m
    → read_byte (store_all ws m) ≡ put_all ws (read_byte m)
unfolding store_all put_all
store_all-put_all [] m h = refl
store_all-put_all (w ∷ ws) m h =
    store_all-put_all ws (store w m) (store-IsMemory w m h)
    ∙ ap (put_all ws) (λ i b. store_byte w m b h i)

-- Memory implements a store of bytes. After any sequence of byte and word writes to a memory of
-- 16-bit words, every byte read gives what the store of bytes holds after the same sequence, where
-- a word write is two byte writes, and every word read gives the two bytes of its pair.
pub store_all-refines :
    (ws : List Write) (m : ℕ → ℕ) (a : ℕ)
    → IsMemory m
    → (read_byte (store_all ws m) a ≡ put_all ws (read_byte m) a)
      × (read_word (store_all ws m) a
          ≡ put_all ws (read_byte m) (a / 2 * 2) + 256 * put_all ws (read_byte m) (a / 2 * 2 + 1))
store_all-refines ws m a h =
    let same = store_all-put_all ws m h in
    (
      ap (λ s. s a) same,
      read_word-bytes (store_all ws m) a (store_all-IsMemory ws m h)
          ∙ ap (λ s. s (a / 2 * 2) + 256 * s (a / 2 * 2 + 1)) same,
    )
