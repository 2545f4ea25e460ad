-- ===== src/Tests/Steps.antt =====
-- The theorems on steps, on stores and on the hash, applied.
use emulator_pdp.Prelude.{ℕ, false, ◌≤◌, ◌≡◌, ◌≢◌, refl, arith, List, [], ◌∷◌, ◌++◌}
use emulator_pdp.Monad.{ok, ◌>>◌, aborted, state_of}
use emulator_pdp.Memory.{read_byte, read_word}
use emulator_pdp.Memory.Store.{Write, byte, word, store_all, put_all, store_all-refines}
use emulator_pdp.Interrupt.{highest_int, highest_pir_level}
use emulator_pdp.Events.{take_pending, grant_interrupt, carry_out, arbitrate, service_due_events}
use emulator_pdp.Step.{pdp11_cpu_step, begin_instr}
use emulator_pdp.Step.Idle.{IsIdle, ticked, cleared, interrupted, pdp11_cpu_step-idle}
use emulator_pdp.Step.Branch.{IsBranching, branched, pdp11_cpu_step-branch}
use emulator_pdp.Operand.{decode_operand, at_address}
use emulator_pdp.Instr.Flow.{is_branch, branch_taken, branch_offset, op_jsr, op_rts, jump_target}
use emulator_pdp.Instr.Flow.Calls.{IsCalling, op_jsr-op_rts}
use emulator_pdp.Hash.{fnv1a, fnv_basis}
use emulator_pdp.Hash.OneByte.{AreBytes, fnv1a-one_byte}
use emulator_pdp.Model.{cpu_create}
use emulator_pdp.Interrupt.{put_psw}
use emulator_pdp.Access.{count_read}
use emulator_pdp.Instr.Trap.{do_trap, op_rti}
use emulator_pdp.Instr.Trap.Entry.{IsTrapping}
use emulator_pdp.Instr.Trap.Return.{do_trap-op_rti}
use emulator_pdp.Tests.Machine.{idling, branching, trapping, calling}

abbrev writes : List Write
writes = word 4 0o1234 ∷ byte 5 0o377 ∷ []

abbrev empty : ℕ → ℕ
empty i = 0

store_all-refines_example :
    (read_byte (store_all writes empty) 5 ≡ 0o377)
    × (read_word (store_all writes empty) 5 ≡ 0o177634)
unfolding put_all read_byte
store_all-refines_example = store_all-refines writes empty 5 (λ i. omega arith)

idling-IsIdle : IsIdle idling
unfolding take_pending grant_interrupt carry_out arbitrate highest_int highest_pir_level cpu_create
idling-IsIdle = record {
  runs = refl;
  waits = refl;
  calm = refl;
  ticks = refl;
  soon = omega arith;
  enabled = refl;
  tto_idle = refl;
  rk_idle = refl;
  rp_idle = refl;
  tm_idle = refl;
  rl_idle = refl;
  low = omega arith;
}

-- The handler of the clock is at 32.
idling-IsTrapping : IsTrapping 0o100 (cleared idling)
unfolding cpu_create count_read read_word put_psw
idling-IsTrapping = record {
  pc_word = record { even = refl; off = refl; low = omega arith; room = refl };
  psw_word = record { even = refl; off = refl; low = omega arith; room = refl };
  sp_lt = omega arith;
  first = record { even = refl; off = refl; low = omega arith; room = refl };
  second = record { even = refl; off = refl; low = omega arith; room = refl };
  clear = refl;
}

pdp11_cpu_step-idle_example :
    (pdp11_cpu_step idling ≡ ok tt (ticked idling))
    × (idling.clk_next_ns ≤ (ticked idling).time_ns)
    × (pdp11_cpu_step (ticked idling) ≡ ok tt (interrupted idling))
    × ((interrupted idling).waiting ≡ false)
    × ((interrupted idling).r 7 ≡ 32)
unfolding read_word
pdp11_cpu_step-idle_example = pdp11_cpu_step-idle idling idling-IsIdle idling-IsTrapping

branching-IsBranching : IsBranching branching
unfolding take_pending grant_interrupt carry_out arbitrate highest_int highest_pir_level cpu_create
    read_word is_branch
branching-IsBranching = record {
  runs = refl;
  awake = refl;
  calm = refl;
  untraced = refl;
  fetches = record { even = refl; off = refl; low = omega arith; room = refl };
  word_fits = omega arith;
  branches = refl;
}

pdp11_cpu_step-branch_example :
    pdp11_cpu_step branching ≡ ok tt (service_due_events (branched 0o1403 (begin_instr branching)))
unfolding read_word
pdp11_cpu_step-branch_example = pdp11_cpu_step-branch branching branching-IsBranching

-- That branch goes from 64 to 72.
branched_test : (branched 0o1403 (begin_instr branching)).r 7 ≡ 72
unfolding begin_instr branch_taken branch_offset cpu_create
branched_test = refl

fnv1a-one_byte_example :
    fnv1a fnv_basis ((1 ∷ []) ++ (3 ∷ 2 ∷ [])) ≢ fnv1a fnv_basis ((1 ∷ []) ++ (4 ∷ 2 ∷ []))
unfolding AreBytes
fnv1a-one_byte_example =
    fnv1a-one_byte (1 ∷ []) (2 ∷ []) 3 4 fnv_basis (omega arith, tt) (omega arith) (omega arith)
      (omega arith) (λ e. omega (arith, e))

-- A trap through 034 to a handler in kernel mode with the second register set. The stack is at 512.
trapping-IsTrapping : IsTrapping 0o34 trapping
unfolding cpu_create count_read read_word put_psw
trapping-IsTrapping = record {
  pc_word = record { even = refl; off = refl; low = omega arith; room = refl };
  psw_word = record { even = refl; off = refl; low = omega arith; room = refl };
  sp_lt = omega arith;
  first = record { even = refl; off = refl; low = omega arith; room = refl };
  second = record { even = refl; off = refl; low = omega arith; room = refl };
  clear = refl;
}

do_trap-op_rti_example :
    (aborted ((do_trap 0o34 >> op_rti false) trapping) ≡ false)
    × ((state_of ((do_trap 0o34 >> op_rti false) trapping)).psw ≡ trapping.psw)
    × ((state_of ((do_trap 0o34 >> op_rti false) trapping)).r 3 ≡ trapping.r 3)
unfolding cpu_create
do_trap-op_rti_example = do_trap-op_rti 0o34 3 false trapping trapping-IsTrapping refl

-- JSR R5, (R1).
abbrev jsr_r5 : ℕ
jsr_r5 = 0o4511

calling-IsCalling : IsCalling jsr_r5 (at_address 0o4000) calling calling
unfolding decode_operand cpu_create
calling-IsCalling = record {
  decoded = refl;
  in_memory = refl;
  no_sp = refl;
  clear = refl;
  plain = record { even = refl; off = refl; low = omega arith; room = refl };
  sp_lt = omega arith;
}

op_jsr-op_rts_example :
    ((state_of (op_jsr jsr_r5 calling)).r 7 ≡ jump_target calling jsr_r5 (at_address 0o4000))
    × (aborted ((op_jsr jsr_r5 >> op_rts 0o205) calling) ≡ false)
    × ((state_of ((op_jsr jsr_r5 >> op_rts 0o205) calling)).r 5 ≡ calling.r 5)
op_jsr-op_rts_example =
    op_jsr-op_rts jsr_r5 0o205 5 (at_address 0o4000) calling calling calling-IsCalling refl
