-- ===== src/Instr/Trap/Entry.antt =====
-- src/core/cpu/cpu.c: `do_trap` with memory management off, where nothing in it faults.
use emulator_pdp.Prelude.{
  ℕ, ◌+◌, ◌^◌, ◌<◌, bit_or, and_not, tst, not, ◌==◌, ◌<<<◌, u16, sub16, field, true, false, ◌≡◌,
  refl, ap, ◌∙◌, arith, Bool-cases, inl, inr,
}
use emulator_pdp.State.{Cpu}
use emulator_pdp.Bits.{bit_or-bit_and_other}
use emulator_pdp.Monad.{bind_ok, ok, M, modify, ◌>>=◌, ◌>>◌}
use emulator_pdp.Memory.{read_word}
use emulator_pdp.Interrupt.{put_psw}
use emulator_pdp.Interrupt.Banks.{cfg-put_psw}
use emulator_pdp.Mmu.{mmr0_mme}
use emulator_pdp.Access.{cpu_read_word_gen, count_read}
use emulator_pdp.Access.Words.{IsPlainWord, cpu_read_word_gen_lem}
use emulator_pdp.Stack.{set_r, push_word}
use emulator_pdp.Stack.Words.{pushed, passes, push_word_lem, check_stack_limit-passes}
use emulator_pdp.Instr.Trap.{do_trap, recheck_stack}

-- The PSW that a trap loads: that of the vector, with the mode before as the previous mode.
abbrev pub trap_psw : ℕ → Cpu → ℕ
trap_psw vector c =
    u16 (bit_or (and_not (read_word c.mem (u16 (vector + 2))) 0o30000) (field c.psw 14 2 <<< 12))

-- The machine in the mode and the register set of the handler.
abbrev pub switched : ℕ → Cpu → Cpu
switched vector c =
    put_psw (trap_psw vector c) (count_read (u16 (vector + 2)) (count_read vector c))

-- With the old PSW and the old PC on the stack.
abbrev pub saved : ℕ → Cpu → Cpu
saved vector c = pushed (c.r 7) (pushed c.psw (record (switched vector c) { in_trap_push = true }))

-- The machine at the first instruction of the handler.
abbrev pub trapped : ℕ → Cpu → Cpu
trapped vector c =
    let s = saved vector c in
    let c1 = set_r 7 (read_word c.mem vector) (record s { in_trap_push = false }) in
    record c1 { mmr0 = bit_or s.mmr0 0o200 }

-- The stack pointer of the handler.
abbrev pub handler_sp : ℕ → Cpu → ℕ
handler_sp vector c = (switched vector c).r 6

-- A trap whose vector and whose two words of stack are plain memory, the stack clear of its limit.
pub record IsTrapping (vector : ℕ) (c : Cpu) : Type 0 where
  pub pc_word : IsPlainWord vector c
  pub psw_word : IsPlainWord (u16 (vector + 2)) c
  pub sp_lt : handler_sp vector c < 2 ^ 16
  pub first : IsPlainWord (sub16 (handler_sp vector c) 2) c
  pub second : IsPlainWord (sub16 (sub16 (handler_sp vector c) 2) 2) c
  pub clear : passes ((trapped vector c).r 6) (trapped vector c) ≡ true

pub mmr0-put_psw : (value : ℕ) (c : Cpu) → (put_psw value c).mmr0 ≡ c.mmr0
unfolding put_psw
mmr0-put_psw value c = ground arith

-- A word of plain memory in a machine that has the same management and memory size.
pub kept_plain :
    (va : ℕ) (c d : Cpu)
    → tst d.mmr0 mmr0_mme ≡ tst c.mmr0 mmr0_mme
    → d.cfg ≡ c.cfg
    → IsPlainWord va c
    → IsPlainWord va d
kept_plain va c d m e h = record {
  even = h.even;
  off = rw m h.off;
  low = h.low;
  room = rw e h.room;
}

finish_trap : ℕ → M (Unit {0})
finish_trap new_pc = do
  modify (λ c. record c { in_trap_push = false })
  modify (set_r 7 new_pc)
  modify (λ c. record c { mmr0 = bit_or c.mmr0 0o200 })
  recheck_stack

recheck_stack-passes : (c : Cpu) → passes (c.r 6) c ≡ true → recheck_stack c ≡ ok tt c
unfolding recheck_stack
recheck_stack-passes c h = elim (Bool-cases (not c.servicing_stack_trap)) [
  | inl e ↦ rw e (check_stack_limit-passes (c.r 6) c h)
  | inr e ↦ rw e refl
]

module _ (vector : ℕ) (c : Cpu) (h : IsTrapping vector c) where
  mmr0_kept : (switched vector c).mmr0 ≡ c.mmr0
  unfolding count_read
  mmr0_kept = mmr0-put_psw (trap_psw vector c) (count_read (u16 (vector + 2)) (count_read vector c))

  pub cfg_kept : (switched vector c).cfg ≡ c.cfg
  unfolding count_read
  cfg_kept = cfg-put_psw (trap_psw vector c) (count_read (u16 (vector + 2)) (count_read vector c))

  off_kept : tst (switched vector c).mmr0 mmr0_mme ≡ tst c.mmr0 mmr0_mme
  off_kept = ap (λ m. tst m mmr0_mme) mmr0_kept

  -- The handler finds management off, and the memory of before.
  pub trapped_plain : (va : ℕ) → IsPlainWord va c → IsPlainWord va (trapped vector c)
  trapped_plain va =
      kept_plain va c (trapped vector c)
        (ap (λ b. not (b == 0)) (bit_or-bit_and_other (switched vector c).mmr0 0o200 mmr0_mme refl)
          ∙ off_kept)
        cfg_kept

  pushes :
      (push_word c.psw >> (push_word (c.r 7) >> finish_trap (read_word c.mem vector)))
        (record (switched vector c) { in_trap_push = true })
      ≡ ok tt (trapped vector c)
  unfolding finish_trap
  pushes =
      let c1 : Cpu = record (switched vector c) { in_trap_push = true } in
      bind_ok (push_word c.psw) (λ _. push_word (c.r 7) >> finish_trap (read_word c.mem vector)) c1
        (pushed c.psw c1) tt
        (push_word_lem c.psw c1 refl (kept_plain _ c c1 off_kept cfg_kept h.first))
      ∙ bind_ok (push_word (c.r 7)) (λ _. finish_trap (read_word c.mem vector)) (pushed c.psw c1)
          (saved vector c) tt
          (push_word_lem (c.r 7) (pushed c.psw c1) refl
            (kept_plain _ c (pushed c.psw c1) off_kept cfg_kept h.second))
      ∙ recheck_stack-passes (trapped vector c) h.clear

  pub do_trap_lem : do_trap vector c ≡ ok tt (trapped vector c)
  unfolding do_trap recheck_stack finish_trap count_read
  do_trap_lem =
      let after : ℕ → ℕ → M (Unit {0}) = λ new_pc raw_psw. (do
        modify (put_psw (u16 (bit_or (and_not raw_psw 0o30000) (field c.psw 14 2 <<< 12))))
        modify (λ c1. record c1 { in_trap_push = true })
        push_word c.psw
        push_word (c.r 7)
        finish_trap new_pc) in
      let c1 = count_read vector c in
      bind_ok (cpu_read_word_gen vector 0 true)
        (λ new_pc. cpu_read_word_gen (u16 (vector + 2)) 0 true >>= after new_pc) c c1
        (read_word c.mem vector) (cpu_read_word_gen_lem vector 0 true c h.pc_word)
      ∙ bind_ok (cpu_read_word_gen (u16 (vector + 2)) 0 true) (after (read_word c.mem vector)) c1
          (count_read (u16 (vector + 2)) c1) (read_word c.mem (u16 (vector + 2)))
          (cpu_read_word_gen_lem (u16 (vector + 2)) 0 true c1
            (kept_plain _ c c1 refl refl h.psw_word))
      ∙ pushes
