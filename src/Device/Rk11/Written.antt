-- ===== src/Device/Rk11/Written.antt =====
-- src/core/devices/rk11.c: the image of the disk after a write transfer.
use emulator_pdp.Prelude.{
  ℕ, ◌+◌, ◌*◌, ◌/◌, ◌%◌, ◌^◌, ◌<◌, ltb, leb, ◌&&◌, if◌then◌else◌, u32, sub32, Bool,
}
use emulator_pdp.State.{Cpu, Rk11}
use emulator_pdp.Mmu.{unibus_map}
use emulator_pdp.Memory
use emulator_pdp.Device.Media.{count_of, rounds}
use emulator_pdp.Device.Rk11.{transfer_word, disk_address, func_write, set_error, rker_ovr}

-- The k-th word of a transfer in memory.
unfoldable pub bus_word : ℕ → ℕ → Cpu → ℕ
bus_word ma k c = Memory.read_word c.mem (unibus_map c (u32 (ma + k * 2)))

module _ (ma da : ℕ) where
  abbrev one : ℕ → Cpu → Cpu
  one i c = transfer_word func_write ma da i c

-- Before the loop, a transfer that reaches past the end only sets the error bits.
abbrev marked : Bool → Cpu → Cpu
marked over c = let d = c.rk in record c { rk = if over then set_error rker_ovr d else d }

-- The words that a transfer from `da` on names, of those that the disk has.
abbrev pub is_reached : Rk11 → ℕ → ℕ → Bool
is_reached d da j = leb da j && (ltb j (da + count_of d.rkwc) && ltb j d.disk_words)

-- The first disk word of RKDA, of 256 words in a sector and 12 sectors in a track, and the bus
-- address of 18 bits in RKBA and the extension bits of RKCS.
abbrev pub first_word : Rk11 → ℕ
first_word d = (d.rkda / 2 ^ 4 % 2 ^ 9 * 12 + d.rkda % 2 ^ 4) * 256

abbrev pub first_bus : Rk11 → ℕ
first_bus d = d.rkcs / 2 ^ 4 % 2 ^ 2 * 2 ^ 16 + d.rkba

module _ (c : Cpu) (len : c.rk.disk_words < 2 ^ 31) (count : c.rk.rkwc < 2 ^ 16) where
  abbrev da : ℕ
  da = disk_address c.rk

  abbrev over : Bool
  over = ltb c.rk.disk_words (u32 (da + count_of c.rk.rkwc))

  abbrev words : ℕ
  words = rounds (if over then sub32 c.rk.disk_words da else count_of c.rk.rkwc)
