-- ===== src/Step/Branch.antt =====
-- src/core/cpu/cpu.c: a branch, from its fetch to its time, as `pdp11_cpu_step` carries it out.
pub mod Decode
use mathlib.Core.Path.{fun_ext}
use emulator_pdp.Prelude.{
  ℕ, ◌+◌, ◌/◌, ◌%◌, ◌^◌, ◌≤◌, ◌<◌, ◌==◌, ◌&&◌, leb, not, tst, bit_and, u16, u64, update, ◌>>>◌,
  if◌then◌else◌, true, false, none, ◌≡◌, refl, ap, sym, ◌∙◌, inl, inr, ◌⊎◌, arith, Bool-cases,
}
use emulator_pdp.State.{Cpu}
use emulator_pdp.Bits.{bit_and_low}
use emulator_pdp.Monad.{bind_ok, M, Result, ok, fault, gets, modify, ◌>>=◌, ◌>>◌}
use emulator_pdp.Memory.{read_word}
use emulator_pdp.Cache
use emulator_pdp.Interrupt.{cur_mode}
use emulator_pdp.Mmu.{mmu_relocate, mmr0_mme, mmr0_freeze, is_iopage, check_nxm}
use emulator_pdp.Mmu.Addresses.{mmu_relocate-off}
use emulator_pdp.IoPage.{io_read, psw_t}
use emulator_pdp.Access.{fetch, cpu_fetch_word, cpu_read_word_gen, count_read}
use emulator_pdp.Instr.Flow.{is_branch, branch_taken, branch_offset, op_branch}
use emulator_pdp.Instr.Misc.{decode_misc, try_single_op}
use emulator_pdp.Events.{take_pending, service_due_events, count_instr}
use emulator_pdp.Step.{
  pdp11_cpu_step, step_instr, run_instr, begin_instr, execute, finish_instr, step_ns, arm_trace,
}
use emulator_pdp.Access.Fetching.{IsFetchable, fetched, fetch_lem}
use emulator_pdp.Step.Branch.Decode.{execute-branch, decode_misc-branch}

begin_instr-IsFetchable : (c : Cpu) → IsFetchable c → IsFetchable (begin_instr c)
unfolding begin_instr
begin_instr-IsFetchable c h = elim (Bool-cases (c.cfg.has_mmu && not (tst c.mmr0 mmr0_freeze))) [
  | inl e ↦ rw e (record { even = h.even; off = h.off; low = h.low; room = h.room })
  | inr e ↦ rw e (record { even = h.even; off = h.off; low = h.low; room = h.room })
]

-- The machine after a branch, before the events that came due.
abbrev pub branched : ℕ → Cpu → Cpu
branched word c =
    let is_taken = branch_taken c (word / 2 ^ 8) in
    record c {
      cache = (Cache.read (c.r 7) c.cache).0;
      r = update c.r 7 (u16 (c.r 7 + 2 + (if is_taken then branch_offset word else 0)));
      time_ns = u64 (c.time_ns + (if is_taken then 600 else 300));
      instr_count = u64 (c.instr_count + 1);
    }

update_again : {A : Type 0} (f : ℕ → A) (i : ℕ) (a b : A) → update (update f i a) i b ≡ update f i b
update_again f i a b =
    fun_ext λ j. elim (Bool-cases (i == j)) [ inl e ↦ rw e refl | inr e ↦ rw e refl ]

same_flags :
    (c : Cpu) (hb k : ℕ)
    → branch_taken (record (fetched c) { r = update (fetched c).r 7 k }) hb ≡ branch_taken c hb
unfolding branch_taken
same_flags c hb k = refl

same_codes : (c : Cpu) (hb : ℕ) → branch_taken (fetched c) hb ≡ branch_taken c hb
unfolding branch_taken
same_codes c hb = refl

one_wrap : (a b : ℕ) → u16 (u16 a + b) ≡ u16 (a + b)
one_wrap a b = omega arith

still : (a : ℕ) → u16 a ≡ u16 (a + 0)
still a = omega arith

abbrev moved : ℕ → Cpu → Cpu
moved word c = op_branch word (word / 2 ^ 8) (fetched c)

step_ns-branch :
    (word : ℕ) (c : Cpu)
    → c.eis_extra_ns ≡ 0
    → is_branch (word / 2 ^ 8) ≡ true
    → word < 2 ^ 16
    → step_ns word (moved word c) ≡ (if branch_taken c (word / 2 ^ 8) then 600 else 300)
unfolding step_ns op_branch
step_ns-branch word c plain b w =
    let small : u16 (word >>> 8) ≡ word / 2 ^ 8 = omega (arith, w) in
    elim (Bool-cases (branch_taken c (word / 2 ^ 8))) [
      | inl t ↦
          rw
            (
              same_codes c (word / 2 ^ 8),
              t,
              small,
              b,
              same_flags c (word / 2 ^ 8) (u16 ((fetched c).r 7 + branch_offset word)),
              t,
              plain,
            )
            refl
      | inr t ↦
          rw (same_codes c (word / 2 ^ 8), t, small, b, same_codes c (word / 2 ^ 8), t, plain) refl
    ]

moved_by_branch :
    (word : ℕ) (c : Cpu)
    → moved word c ≡ record (fetched c) {
      r =
          update c.r 7
            (u16 (c.r 7 + 2 + (if branch_taken c (word / 2 ^ 8) then branch_offset word else 0)));
    }
unfolding op_branch
moved_by_branch word c = elim (Bool-cases (branch_taken c (word / 2 ^ 8))) [
  | inl t ↦
      rw (same_codes c (word / 2 ^ 8), t)
        (λ i. record (fetched c) {
          r =
              (update_again c.r 7 (u16 (c.r 7 + 2)) (u16 (u16 (c.r 7 + 2) + branch_offset word))
                  ∙ ap (update c.r 7) (one_wrap (c.r 7 + 2) (branch_offset word)))
                i;
        })
  | inr t ↦
      rw (same_codes c (word / 2 ^ 8), t)
        (λ i. record (fetched c) { r = update c.r 7 (still (c.r 7 + 2) i) })
]

finish_instr-op_branch :
    (word : ℕ) (c : Cpu)
    → c.eis_extra_ns ≡ 0
    → is_branch (word / 2 ^ 8) ≡ true
    → word < 2 ^ 16
    → finish_instr word (op_branch word (word / 2 ^ 8) (fetched c))
      ≡ service_due_events (branched word c)
unfolding finish_instr count_instr
finish_instr-op_branch word c plain b w = ap service_due_events (λ i.
    let m = moved_by_branch word c i in
    record m {
      time_ns = u64 (m.time_ns + step_ns-branch word c plain b w i);
      instr_count = u64 (m.instr_count + 1);
    })

instr_lem :
    (word : ℕ) (c : Cpu)
    → IsFetchable c
    → c.eis_extra_ns ≡ 0
    → is_branch (word / 2 ^ 8) ≡ true
    → word < 2 ^ 16
    → word ≡ read_word c.mem (c.r 7)
    → (fetch >>= λ w. execute w >> modify (finish_instr w)) c
      ≡ ok tt (service_due_events (branched word c))
instr_lem word c h plain b w same =
    bind_ok fetch (λ w. execute w >> modify (finish_instr w)) c (fetched c) word
      (fetch_lem c h ∙ ap (λ v. ok v (fetched c)) (sym same))
    ∙ bind_ok (execute word) (λ _. modify (finish_instr word)) (fetched c)
        (op_branch word (word / 2 ^ 8) (fetched c)) tt
        (ap (λ m. m (fetched c)) (execute-branch word b) ∙ decode_misc-branch word (fetched c) b w)
    ∙ ap (ok tt) (finish_instr-op_branch word c plain b w)

begin_instr-word :
    (c : Cpu) → read_word c.mem (c.r 7) ≡ read_word (begin_instr c).mem ((begin_instr c).r 7)
unfolding begin_instr
begin_instr-word c = elim (Bool-cases (c.cfg.has_mmu && not (tst c.mmr0 mmr0_freeze))) [
  | inl e ↦ rw e refl
  | inr e ↦ rw e refl
]

begin_instr-plain : (c : Cpu) → (begin_instr c).eis_extra_ns ≡ 0
unfolding begin_instr
begin_instr-plain c = elim (Bool-cases (c.cfg.has_mmu && not (tst c.mmr0 mmr0_freeze))) [
  | inl e ↦ rw e refl
  | inr e ↦ rw e refl
]

-- A machine that is about to run a branch, untraced and from memory.
pub record IsBranching (c : Cpu) : Type 0 where
  pub runs : c.halted ≡ false
  pub awake : c.waiting ≡ false
  pub calm : take_pending c ≡ none
  pub untraced : tst c.psw psw_t ≡ false
  pub fetches : IsFetchable c
  pub word_fits : read_word c.mem (c.r 7) < 2 ^ 16
  pub branches : is_branch (read_word c.mem (c.r 7) / 2 ^ 8) ≡ true

run_instr-branch :
    (c : Cpu)
    → IsBranching c
    → run_instr c ≡ ok tt (service_due_events (branched (read_word c.mem (c.r 7)) (begin_instr c)))
unfolding run_instr
run_instr-branch c h =
    instr_lem (read_word c.mem (c.r 7)) (begin_instr c) (begin_instr-IsFetchable c h.fetches)
      (begin_instr-plain c) h.branches h.word_fits (begin_instr-word c)

step_instr-ok : (c c1 : Cpu) → run_instr c ≡ ok tt c1 → step_instr c ≡ c1
unfolding step_instr
step_instr-ok c c1 e = rw (step_instr, e) refl

arm_trace-untraced : (c : Cpu) → tst c.psw psw_t ≡ false → arm_trace c ≡ c
unfolding arm_trace
arm_trace-untraced c e = rw e refl

step_runs :
    (c : Cpu)
    → c.halted ≡ false
    → take_pending c ≡ none
    → c.waiting ≡ false
    → pdp11_cpu_step c ≡ ok tt (step_instr (arm_trace c))
unfolding pdp11_cpu_step
step_runs c runs calm awake = simp (calm, runs, awake) refl

-- A step of a machine that is neither halted, waiting nor traced, with no trap or interrupt to
-- take and with management off, and whose PC names a branch of 16 bits in memory at an even address below
-- the I/O page, runs the branch: the PC moves past the word, and by the displacement when the
-- condition holds in the codes before the step; the step takes 600 ns when it does and 300 when
-- not; the instruction and its one read are counted; and then the events that came due are
-- served. Nothing else of the machine changes but what every instruction begins with.
pub pdp11_cpu_step-branch :
    (c : Cpu)
    → IsBranching c
    → pdp11_cpu_step c
      ≡ ok tt (service_due_events (branched (read_word c.mem (c.r 7)) (begin_instr c)))
pdp11_cpu_step-branch c h =
    step_runs c h.runs h.calm h.awake
    ∙ ap (λ c1. ok tt (step_instr c1)) (arm_trace-untraced c h.untraced)
    ∙ ap (ok tt) (
        step_instr-ok c (service_due_events (branched (read_word c.mem (c.r 7)) (begin_instr c)))
          (run_instr-branch c h))
