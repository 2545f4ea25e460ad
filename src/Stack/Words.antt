-- ===== src/Stack/Words.antt =====
-- src/core/cpu/cpu.c: a push onto plain memory, and a pop of it.
use emulator_pdp.Prelude.{
  ℕ, ◌+◌, ◌<◌, ◌^◌, tst, false, u16, sub16, field, not, leb, ◌==◌, ◌||◌, Bool, true, ◌≡◌, refl, ◌∙◌,
  arith, inl, inr, Bool-cases,
}
use emulator_pdp.State.{Cpu}
use emulator_pdp.Bits.{bit_and_low}
use emulator_pdp.Monad.{bind_ok, ok, gets, modify, ◌>>◌}
use emulator_pdp.Memory.{read_word, write_word}
use emulator_pdp.Interrupt.{cur_mode}
use emulator_pdp.Access.{cpu_read_word, cpu_write_word, count_read}
use emulator_pdp.Access.Words.{IsPlainWord, cpu_read_word_gen_lem, cpu_write_word_mode_lem}
use emulator_pdp.Stack.{set_r, check_stack_limit, push_word, pop_word}

-- The machine after a push, and after a pop.
abbrev pub pushed : ℕ → Cpu → Cpu
pushed value c =
    let c1 = set_r 6 (sub16 (c.r 6) 2) c in
    record c1 { mem = write_word c.mem (sub16 (c.r 6) 2) value }

abbrev pub popped : Cpu → Cpu
popped c = let c1 = count_read (c.r 6) c in set_r 6 (u16 (c1.r 6 + 2)) c1

-- A stack pointer that the limit lets through without a word: in the pushes of a trap, outside
-- kernel mode, and from 256 above the limit on.
abbrev pub passes : ℕ → Cpu → Bool
passes sp c = (c.in_trap_push || not (field c.psw 14 2 == 0)) || leb (u16 (c.stklim + 0o400)) sp

pub check_stack_limit-passes :
    (sp : ℕ) (c : Cpu) → passes sp c ≡ true → check_stack_limit sp c ≡ ok tt c
unfolding check_stack_limit
check_stack_limit-passes sp c h =
    elim (Bool-cases (c.in_trap_push || not (field c.psw 14 2 == 0))) [
      | inl free ↦ rw free refl
      | inr limited ↦
          let above : leb (u16 (c.stklim + 0o400)) sp ≡ true = ground (arith, h, limited) in
          rw (limited, above) refl
    ]

pub push_word_lem :
    (value : ℕ) (c : Cpu)
    → passes (sub16 (c.r 6) 2) c ≡ true
    → IsPlainWord (sub16 (c.r 6) 2) c
    → push_word value c ≡ ok tt (pushed value c)
unfolding push_word cpu_write_word
push_word_lem value c t h =
    let sp = sub16 (c.r 6) 2 in
    let c1 = set_r 6 sp c in
    let h1 : IsPlainWord sp c1 = record {
      even = h.even;
      off = h.off;
      low = h.low;
      room = h.room;
    } in
    bind_ok (check_stack_limit sp) (λ _. cpu_write_word sp value) c1 c1 tt
      (check_stack_limit-passes sp c1 t)
    ∙ cpu_write_word_mode_lem sp (cur_mode c1) true c1 h1 value

pub pop_word_lem :
    (c : Cpu) → IsPlainWord (c.r 6) c → pop_word c ≡ ok (read_word c.mem (c.r 6)) (popped c)
unfolding pop_word cpu_read_word
pop_word_lem c h =
    bind_ok (cpu_read_word (c.r 6))
      (λ value. do modify (λ c1. set_r 6 (u16 (c1.r 6 + 2)) c1); gets (λ _. value)) c
      (count_read (c.r 6) c) (read_word c.mem (c.r 6))
      (cpu_read_word_gen_lem (c.r 6) (cur_mode c) true c h)

-- A write and the read of the word, and of another word of the low 56 KB.
pub read_word-write_word : (m : ℕ → ℕ) (a v : ℕ) → read_word (write_word m a v) a ≡ v
unfolding read_word write_word
read_word-write_word m a v = ground arith

pub read_word-write_word_below :
    (m : ℕ → ℕ) (a v : ℕ)
    → tst a 1 ≡ false
    → a + 2 < 2 ^ 16
    → read_word (write_word m a v) (a + 2) ≡ read_word m (a + 2)
unfolding read_word write_word
read_word-write_word_below m a v even h = ground (arith, bit_and_low 22 a, bit_and_low 22 (a + 2))
