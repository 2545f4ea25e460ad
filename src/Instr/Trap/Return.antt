-- ===== src/Instr/Trap/Return.antt =====
-- src/core/cpu/cpu.c: a trap and the return from it.
use emulator_pdp.Prelude.{
  ℕ, ◌+◌, tst, not, ◌==◌, ◌&&◌, if◌then◌else◌, u16, sub16, Bool, true, false, ◌≡◌, refl, ap, ◌∙◌,
  arith, Bool-cases, inl, inr,
}
use emulator_pdp.State.{Cpu}
use emulator_pdp.Monad.{bind_ok, ok, M, modify, ◌>>=◌, ◌>>◌, state_of, aborted}
use emulator_pdp.Memory.{read_word}
use emulator_pdp.Interrupt.{put_psw}
use emulator_pdp.Interrupt.Banks.{Holdable, put_psw-put_psw, psw-put_psw, cfg-put_psw, r-put_psw}
use emulator_pdp.IoPage.{psw_t}
use emulator_pdp.Access.{count_read}
use emulator_pdp.Access.Words.{IsPlainWord}
use emulator_pdp.Stack.{set_r, pop_word}
use emulator_pdp.Stack.Words.{
  read_word-write_word, read_word-write_word_below, popped, pop_word_lem,
}
use emulator_pdp.Instr.Trap.{do_trap, op_rti}
use emulator_pdp.Instr.Trap.Entry.{
  IsTrapping, trapped, trapped_plain, switched, handler_sp, trap_psw, do_trap_lem,
}

-- The end of an RTI: the trace trap that the PSW asks for.
abbrev traced : Bool → Cpu → Cpu
traced is_rtt c = if not is_rtt && tst c.psw psw_t then record c { trace_pending = true } else c

r-traced : (b : Bool) (c : Cpu) (i : ℕ) → (traced b c).r i ≡ c.r i
r-traced b c i = elim (Bool-cases (not b && tst c.psw psw_t)) [
  | inl e ↦ rw e refl
  | inr e ↦ rw e refl
]

psw-traced : (b : Bool) (c : Cpu) → (traced b c).psw ≡ c.psw
psw-traced b c = elim (Bool-cases (not b && tst c.psw psw_t)) [
  | inl e ↦ rw e refl
  | inr e ↦ rw e refl
]

-- The machine before the PSW is restored.
abbrev unstacked : Cpu → Cpu
unstacked c = popped (set_r 7 (read_word c.mem (c.r 6)) (popped c))

op_rti_lem :
    (b : Bool) (c : Cpu)
    → IsPlainWord (c.r 6) c
    → IsPlainWord (c.r 6 + 2) c
    → op_rti b c ≡ ok tt (traced b (put_psw (read_word c.mem (c.r 6 + 2)) (unstacked c)))
unfolding op_rti count_read
op_rti_lem b c first second =
    let c1 = set_r 7 (read_word c.mem (c.r 6)) (popped c) in
    let next : u16 (c.r 6 + 2) ≡ c.r 6 + 2 = omega (arith, first.low) in
    let plain : IsPlainWord (c1.r 6) c1 = record {
      even = rw next second.even;
      off = second.off;
      low = rw next second.low;
      room = rw next second.room;
    } in
    let restore : ℕ → M (Unit {0}) = λ psw. (do modify (put_psw psw); modify (traced b)) in
    bind_ok pop_word (λ pc. modify (set_r 7 pc) >> (pop_word >>= restore)) c (popped c)
      (read_word c.mem (c.r 6)) (pop_word_lem c first)
    ∙ bind_ok pop_word restore c1 (popped c1) (read_word c1.mem (c1.r 6)) (pop_word_lem c1 plain)
    ∙ ap (λ a. ok tt (traced b (put_psw (read_word c.mem a) (unstacked c)))) next

-- What a change of PSW makes of the registers, where only R7 differs.
put_psw-r7 :
    (psw i pc : ℕ) (c d : Cpu)
    → d.psw ≡ c.psw
    → d.cfg ≡ c.cfg
    → d.regfile ≡ c.regfile
    → d.stackfile ≡ c.stackfile
    → ((j : ℕ) → d.r j ≡ (if j == 7 then pc else c.r j))
    → (put_psw psw d).r i ≡ (if i == 7 then pc else (put_psw psw c).r i)
put_psw-r7 psw i pc c d p e f s r =
    rw (r-put_psw psw d i, r-put_psw psw c i, p, e, f, s) (ground (arith, r i, r 6))

module _ (vector : ℕ) (c : Cpu) (h : IsTrapping vector c) where
  top : ℕ
  top = sub16 (sub16 (handler_sp vector c) 2) 2

  above : top + 2 ≡ sub16 (handler_sp vector c) 2
  unfolding top
  above = omega (arith, h.first.low, h.second.low)

  whole : u16 (u16 (top + 2) + 2) ≡ handler_sp vector c
  unfolding top
  whole = omega (arith, h.first.low, h.second.low, h.sp_lt)

  saved_pc : read_word (trapped vector c).mem top ≡ c.r 7
  unfolding top
  saved_pc = read_word-write_word _ top (c.r 7)

  saved_psw : read_word (trapped vector c).mem (top + 2) ≡ c.psw
  unfolding top
  saved_psw =
      read_word-write_word_below _ top (c.r 7) h.second.even (omega (arith, h.second.low))
      ∙ ap (read_word _) above
      ∙ read_word-write_word _ (sub16 (handler_sp vector c) 2) c.psw

  -- The machine when the return loads the PSW.
  returning : Cpu
  returning = unstacked (trapped vector c)

  written :
      (j : ℕ)
      → returning.r j ≡ (
          if 6 == j
          then u16 (u16 (top + 2) + 2)
          else if 7 == j
          then read_word (trapped vector c).mem top
          else if 6 == j
          then u16 (top + 2)
          else if 7 == j
          then read_word c.mem vector
          else if 6 == j
          then top
          else if 6 == j
          then sub16 (handler_sp vector c) 2
          else (switched vector c).r j)
  unfolding returning count_read top
  written j = refl

  registers_back : (j : ℕ) → returning.r j ≡ (if j == 7 then c.r 7 else (switched vector c).r j)
  registers_back j = elim (Bool-cases (6 == j)) [
    | inl e ↦ let six : j ≡ 6 = ground (arith, e) in rw six (written 6 ∙ whole)
    | inr e ↦ rw (written j, e) (ground (arith, saved_pc))
  ]

  return_lem :
      (is_rtt : Bool)
      → (do_trap vector >> op_rti is_rtt) c ≡ ok tt (traced is_rtt (put_psw c.psw returning))
  unfolding returning top
  return_lem is_rtt =
      let t = trapped vector c in
      let next : IsPlainWord (top + 2) c = rw above h.first in
      bind_ok (do_trap vector) (λ _. op_rti is_rtt) c t tt (do_trap_lem vector c h)
      ∙ op_rti_lem is_rtt t (trapped_plain vector c h top h.second)
          (trapped_plain vector c h (top + 2) next)
      ∙ ap (λ p. ok tt (traced is_rtt (put_psw p returning))) saved_psw

  returned_r : (i : ℕ) → Holdable c.psw c → (put_psw c.psw returning).r i ≡ c.r i
  unfolding returning count_read
  returned_r i held =
      let c1 = count_read (u16 (vector + 2)) (count_read vector c) in
      let back = put_psw-put_psw c1 (trap_psw vector c) i held in
      put_psw-r7 c.psw i (c.r 7) (switched vector c) returning refl refl refl refl registers_back
      ∙ elim (Bool-cases (i == 7)) [
        | inl e ↦ let seven : i ≡ 7 = ground (arith, e) in rw seven refl
        | inr e ↦ rw e back.1
      ]

  returned_psw : Holdable c.psw c → (put_psw c.psw returning).psw ≡ c.psw
  unfolding returning count_read
  returned_psw held =
      let c1 = count_read (u16 (vector + 2)) (count_read vector c) in
      psw-put_psw c.psw returning ∙ rw (cfg-put_psw (trap_psw vector c) c1) held

-- A trap, and an RTI or RTT as the first instruction of its handler: with management off, the
-- vector and the two words below the stack of the handler in plain memory, that stack clear of its
-- limit, and a PSW that the model can hold, neither faults, and the return leaves the PSW and every
-- register as they were before the trap, also where the trap changed the mode or the register set.
pub do_trap-op_rti :
    (vector i : ℕ) (is_rtt : Bool) (c : Cpu)
    → IsTrapping vector c
    → Holdable c.psw c
    → let after = (do_trap vector >> op_rti is_rtt) c in
      (aborted after ≡ false) × ((state_of after).psw ≡ c.psw) × ((state_of after).r i ≡ c.r i)
do_trap-op_rti vector i is_rtt c h held =
    let c1 = put_psw c.psw (returning vector c h) in
    rw (return_lem vector c h is_rtt) (
      refl,
      psw-traced is_rtt c1 ∙ returned_psw vector c h held,
      r-traced is_rtt c1 i ∙ returned_r vector c h i held,
    )
