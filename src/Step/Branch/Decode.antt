-- ===== src/Step/Branch/Decode.antt =====
-- src/core/cpu/cpu.c: where the switches of `pdp11_cpu_step` and `decode_misc` send a branch.
use emulator_pdp.Prelude.{
  ℕ, ◌/◌, ◌%◌, ◌^◌, ◌≤◌, ◌<◌, ◌==◌, leb, tst, bit_and, ◌>>>◌, true, false, none, ◌≡◌, refl, inl,
  inr, ◌⊎◌, arith, Bool-cases,
}
use emulator_pdp.State.{Cpu}
use emulator_pdp.Bits.{bit_and_low}
use emulator_pdp.Monad.{ok}
use emulator_pdp.Instr.Flow.{is_branch, op_branch}
use emulator_pdp.Instr.Misc.{decode_misc, try_single_op}
use emulator_pdp.Step.{execute}

is_branch_range : (hb : ℕ) → is_branch hb ≡ true → ((1 ≤ hb) × (hb ≤ 7)) ⊎ ((128 ≤ hb) × (hb ≤ 135))
unfolding is_branch
is_branch_range hb h = ground arith

-- A branch is no double-operand instruction: the top four bits send it to `decode_misc`.
pub execute-branch : (word : ℕ) → is_branch (word / 2 ^ 8) ≡ true → execute word ≡ decode_misc word
unfolding execute
execute-branch word h =
    let range = is_branch_range (word / 2 ^ 8) h in
    let top : (bit_and (word >>> 12) 0o17 ≡ 0) ⊎ (bit_and (word >>> 12) 0o17 ≡ 8) =
      ground (arith, bit_and_low 4 (word >>> 12), range) in
    elim top [ inl e ↦ rw e refl | inr e ↦ rw e refl ]

-- Nor is it a single-operand one.
try_single_op-branch :
    (word : ℕ) (c : Cpu) → is_branch (word / 2 ^ 8) ≡ true → try_single_op word c ≡ none
unfolding try_single_op
try_single_op-branch word c h =
    let range = is_branch_range (word / 2 ^ 8) h in
    let code : bit_and (word >>> 6) 0o1777 ≡ word >>> 6 =
      ground (arith, bit_and_low 10 (word >>> 6), range) in
    let base : bit_and (word >>> 6) 0o777 ≤ 31 =
      ground (arith, bit_and_low 9 (word >>> 6), range) in
    elim (Bool-cases (bit_and (word >>> 6) 0o777 == 3)) [
      | inl e ↦
          let byte_op : word >>> 6 ≡ 515 = ground (arith, bit_and_low 9 (word >>> 6), range, e) in
          rw (code, byte_op) refl
      | inr e ↦
          let mark : bit_and (word >>> 6) 0o777 == 0o64 ≡ false = ground (arith, base) in
          let mfp : bit_and (word >>> 6) 0o777 == 0o65 ≡ false = ground (arith, base) in
          let mtp : bit_and (word >>> 6) 0o777 == 0o66 ≡ false = ground (arith, base) in
          let single : leb 0o50 (bit_and (word >>> 6) 0o777) ≡ false = ground (arith, base) in
          let sxt : bit_and (word >>> 6) 0o777 == 0o67 ≡ false = ground (arith, base) in
          elim (Bool-cases (tst (word >>> 6) 0o1000)) [
            | inl t ↦ rw (code, e, mark, mfp, mtp, single, sxt, t) refl
            | inr t ↦ rw (code, e, mark, mfp, mtp, single, sxt, t) refl
          ]
    ]

pub decode_misc-branch :
    (word : ℕ) (c : Cpu)
    → is_branch (word / 2 ^ 8) ≡ true
    → word < 2 ^ 16
    → decode_misc word c ≡ ok tt (op_branch word (word / 2 ^ 8) c)
unfolding decode_misc
decode_misc-branch word c h w =
    let small : word / 2 ^ 8 % 2 ^ 16 ≡ word / 2 ^ 8 = omega (arith, w) in
    rw (decode_misc, try_single_op-branch word c h, small, h) refl
