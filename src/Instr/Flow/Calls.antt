-- ===== src/Instr/Flow/Calls.antt =====
-- src/core/cpu/cpu.c: a subroutine call and the return from it.
use emulator_pdp.Prelude.{
  ℕ, ◌+◌, ◌^◌, ◌<◌, bit_and, ◌>>>◌, ◌==◌, if◌then◌else◌, u16, sub16, true, false, ◌≡◌, refl, ap,
  ◌∙◌, arith,
}
use emulator_pdp.State.{Cpu}
use emulator_pdp.Monad.{bind_ok, ok, M, gets, modify, ◌>>=◌, ◌>>◌, state_of, aborted}
use emulator_pdp.Memory.{read_word}
use emulator_pdp.Access.{count_read}
use emulator_pdp.Access.Words.{IsPlainWord}
use emulator_pdp.Stack.{set_r, push_word, pop_word}
use emulator_pdp.Stack.Words.{
  passes, pushed, popped, push_word_lem, pop_word_lem, read_word-write_word,
}
use emulator_pdp.Operand.{Operand, decode_operand}
use emulator_pdp.Instr.Trap.{vec_reserved, do_trap}
use emulator_pdp.Instr.Flow.{jump_target, op_jsr, op_rts}

-- The register that the instruction links through.
abbrev pub link_register : ℕ → ℕ
link_register word = bit_and (word >>> 6) 0o7

-- A JSR at which the destination was decoded to `dst` in memory, with `c` after that, and a stack
-- of plain memory that is clear of its limit.
pub record IsCalling (word : ℕ) (dst : Operand) (c0 c : Cpu) : Type 0 where
  pub decoded : decode_operand (bit_and word 0o77) false c0 ≡ ok dst c
  pub in_memory : dst.is_reg ≡ false
  pub no_sp : (link_register word == 6) ≡ false
  pub clear : passes (sub16 (c.r 6) 2) c ≡ true
  pub plain : IsPlainWord (sub16 (c.r 6) 2) c
  pub sp_lt : c.r 6 < 2 ^ 16

module _ (word : ℕ) (dst : Operand) (c0 c : Cpu) (h : IsCalling word dst c0 c) where
  abbrev reg : ℕ
  reg = link_register word

  abbrev sp : ℕ
  sp = sub16 (c.r 6) 2

  -- The machine at the first instruction of the subroutine.
  called : Cpu
  called = let p = pushed (c.r reg) c in set_r 7 (jump_target c word dst) (set_r reg (c.r 7) p)

  op_jsr_lem : op_jsr word c0 ≡ ok tt called
  unfolding op_jsr called
  op_jsr_lem =
      let enter : ℕ → M (Unit {0}) =
        λ target. (do modify (λ c1. set_r reg (c1.r 7) c1); modify (set_r 7 target)) in
      let call : Operand → M (Unit {0}) = λ d. (do
        target ← gets (λ c1. jump_target c1 word d)
        link ← gets (λ c1. c1.r reg)
        push_word link
        enter target) in
      bind_ok (decode_operand (bit_and word 0o77) false)
        (λ d. if d.is_reg then do_trap vec_reserved else call d) c0 c dst h.decoded
      ∙ rw h.in_memory (
          bind_ok (push_word (c.r reg)) (λ _. enter (jump_target c word dst)) c (pushed (c.r reg) c)
            tt (push_word_lem (c.r reg) c h.clear h.plain))

  r-called :
      (i : ℕ)
      → called.r i ≡ (
          if i == 7
          then jump_target c word dst
          else if i == reg
          then c.r 7
          else if i == 6
          then sp
          else c.r i)
  unfolding called
  r-called i = ground arith

  -- The machine when the return pops the link.
  leaving : Cpu
  leaving = set_r 7 (called.r reg) called

  sp-leaving : leaving.r 6 ≡ sp
  unfolding leaving
  sp-leaving = ground (arith, r-called 6, h.no_sp)

  leaving_plain : IsPlainWord sp leaving
  unfolding leaving called
  leaving_plain = record {
    even = h.plain.even;
    off = h.plain.off;
    low = h.plain.low;
    room = h.plain.room;
  }

  link-leaving : read_word leaving.mem sp ≡ c.r reg
  unfolding leaving called
  link-leaving = read_word-write_word c.mem sp (c.r reg)

  op_rts_lem :
      (ret : ℕ)
      → bit_and ret 0o7 ≡ reg
      → op_rts ret called ≡ ok tt (set_r reg (c.r reg) (popped leaving))
  unfolding op_rts leaving
  op_rts_lem ret same =
      let on_top : IsPlainWord (leaving.r 6) leaving = rw sp-leaving leaving_plain in
      rw same (
        bind_ok pop_word (λ link. modify (set_r reg link)) leaving (popped leaving)
          (read_word leaving.mem (leaving.r 6)) (pop_word_lem leaving on_top)
        ∙ ap (λ link. ok tt (set_r reg link (popped leaving)))
            (ap (read_word leaving.mem) sp-leaving ∙ link-leaving))

  popped_sp : (popped leaving).r 6 ≡ c.r 6
  unfolding count_read
  popped_sp = omega (arith, ap (λ a. u16 (a + 2)) sp-leaving, h.sp_lt, h.plain.low)

  returned_r : (i : ℕ) → (set_r reg (c.r reg) (popped leaving)).r i ≡ c.r i
  unfolding leaving count_read
  returned_r i = ground (arith, popped_sp, r-called i, r-called reg)

-- A call, and an RTS through the same register as the first instruction of the subroutine: where the
-- destination was decoded to an address, the link register is not R6, and the word below the stack
-- is plain memory clear of the limit, the call goes to the target, neither faults, and the return
-- leaves every register as it was once the destination was decoded, so that the program goes on
-- behind the call.
pub op_jsr-op_rts :
    (word ret i : ℕ) (dst : Operand) (c0 c : Cpu)
    → IsCalling word dst c0 c
    → bit_and ret 0o7 ≡ link_register word
    → let after = (op_jsr word >> op_rts ret) c0 in
      ((state_of (op_jsr word c0)).r 7 ≡ jump_target c word dst)
      × (aborted after ≡ false)
      × ((state_of after).r i ≡ c.r i)
op_jsr-op_rts word ret i dst c0 c h same =
    let a = called word dst c0 c h in
    rw
      (
        bind_ok (op_jsr word) (λ _. op_rts ret) c0 a tt (op_jsr_lem word dst c0 c h),
        op_rts_lem word dst c0 c h ret same,
        op_jsr_lem word dst c0 c h,
      )
      (r-called word dst c0 c h 7, refl, returned_r word dst c0 c h i)
