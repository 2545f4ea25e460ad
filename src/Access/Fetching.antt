-- ===== src/Access/Fetching.antt =====
-- src/core/cpu/cpu.c: `fetch` from memory, with memory management off.
use emulator_pdp.Prelude.{◌+◌, u16, update, false, ◌≡◌}
use emulator_pdp.State.{Cpu}
use emulator_pdp.Monad.{bind_ok, ok, gets, modify, ◌>>◌}
use emulator_pdp.Memory.{read_word}
use emulator_pdp.Cache
use emulator_pdp.Interrupt.{cur_mode}
use emulator_pdp.Access.Words.{IsPlainWord, cpu_read_word_gen_lem}
use emulator_pdp.Access.{fetch, cpu_fetch_word, count_read}

-- What the fetch of a word of memory needs, with memory management off.
abbrev pub IsFetchable : Cpu → Type 0
IsFetchable c = IsPlainWord (c.r 7) c

-- The machine after a fetch.
abbrev pub fetched : Cpu → Cpu
fetched c = record c { cache = (Cache.read (c.r 7) c.cache).0; r = update c.r 7 (u16 (c.r 7 + 2)) }

pub fetch_lem : (c : Cpu) → IsFetchable c → fetch c ≡ ok (read_word c.mem (c.r 7)) (fetched c)
unfolding fetch cpu_fetch_word count_read
fetch_lem c h =
    bind_ok (cpu_fetch_word (c.r 7))
      (λ word. do
        modify (λ c1. record c1 { r = update c1.r 7 (u16 (c1.r 7 + 2)) })
        gets (λ _. word))
      c (record c { cache = (Cache.read (c.r 7) c.cache).0 }) (read_word c.mem (c.r 7))
      (cpu_read_word_gen_lem (c.r 7) (cur_mode c) false c h)
