-- ===== src/Access.antt =====
-- src/core/cpu/cpu.c: how the processor reaches memory, by word and by byte, through the MMU.
pub mod Words
pub mod Fetching
use emulator_pdp.Prelude.{
  ℕ, ◌+◌, bit_and, bit_or, tst, if◌then◌else◌, ◌>>>◌, ◌<<<◌, u8, u16, update, Bool, true, false,
}
use emulator_pdp.State.{Cpu}
use emulator_pdp.Monad.{M, get, gets, modify, ◌>>=◌, ◌>>◌, cpu_bus_fault}
use emulator_pdp.Interrupt.{cur_mode}
use emulator_pdp.Mmu.{vec_bus, mmu_relocate, is_iopage, check_nxm}
use emulator_pdp.IoPage.{io_read, io_write}
use emulator_pdp.Memory
use emulator_pdp.Cache

unfoldable pub count_read : ℕ → Cpu → Cpu
count_read pa c = record c { cache = (Cache.read pa c.cache).0 }

-- A word or a byte that is not on the I/O page: installed, and counted by the cache.
read_ram : ((ℕ → ℕ) → ℕ → ℕ) → ℕ → M ℕ
unfolding count_read
read_ram read pa = do check_nxm pa; modify (count_read pa); gets (λ c. read c.mem pa)

unfoldable pub cpu_read_word_gen : ℕ → ℕ → Bool → M ℕ
unfolding read_ram
cpu_read_word_gen va mode dspace = if tst va 1 then cpu_bus_fault vec_bus else (do
  pa ← mmu_relocate (u16 va) false mode dspace
  if is_iopage pa then io_read (bit_and pa 0o177777) else read_ram Memory.read_word pa)

unfoldable pub cpu_write_word_mode : ℕ → ℕ → Bool → ℕ → M (Unit {0})
cpu_write_word_mode va mode dspace value = if tst va 1 then cpu_bus_fault vec_bus else (do
  pa ← mmu_relocate (u16 va) true mode dspace
  if is_iopage pa
      then io_write (bit_and pa 0o177777) value
      else (do check_nxm pa; modify (λ c. record c { mem = Memory.write_word c.mem pa value })))

unfoldable pub cpu_fetch_word : ℕ → M ℕ
unfolding cpu_read_word_gen cur_mode
cpu_fetch_word va c = cpu_read_word_gen va (cur_mode c) false c

unfoldable pub cpu_read_word : ℕ → M ℕ
unfolding cpu_read_word_gen cur_mode
cpu_read_word va c = cpu_read_word_gen va (cur_mode c) true c

unfoldable pub cpu_write_word : ℕ → ℕ → M (Unit {0})
unfolding cpu_write_word_mode cur_mode
cpu_write_word va value c = cpu_write_word_mode va (cur_mode c) true value c

unfoldable pub cpu_read_byte : ℕ → M ℕ
unfolding read_ram cur_mode
cpu_read_byte va = do
  mode ← gets cur_mode
  pa ← mmu_relocate (u16 va) false mode true
  if is_iopage pa
      then (do
        w ← io_read (bit_and pa 0o177776)
        gets (λ _. u8 (if tst pa 1 then w >>> 8 else bit_and w 0o377)))
      else read_ram Memory.read_byte pa

unfoldable pub cpu_write_byte : ℕ → ℕ → M (Unit {0})
unfolding cur_mode
cpu_write_byte va value = do
  mode ← gets cur_mode
  pa ← mmu_relocate (u16 va) true mode true
  if is_iopage pa
      then (do
        w ← io_read (bit_and pa 0o177776)
        io_write (bit_and pa 0o177776) (
            if tst pa 1
            then u16 (bit_or (bit_and w 0o377) (value <<< 8))
            else u16 (bit_or (bit_and w 0o177400) value)))
      else (do check_nxm pa; modify (λ c. record c { mem = Memory.write_byte c.mem pa value }))

-- `fetch`: the word at the PC, and the PC past it.
unfoldable pub fetch : M ℕ
unfolding cpu_fetch_word
fetch = do
  c ← get
  word ← cpu_fetch_word (c.r 7)
  modify (λ c. record c { r = update c.r 7 (u16 (c.r 7 + 2)) })
  gets (λ _. word)
