-- ===== src/Instr/Flow.antt =====
-- src/core/cpu/cpu.c: branches, jumps, subroutines, SOB, MARK and the condition-code operators.
pub mod Branches
pub mod Calls
use emulator_pdp.Prelude.{
  ℕ, ◌+◌, ◌*◌, bit_and, bit_or, and_not, tst, xor, not, leb, ◌==◌, ◌&&◌, ◌||◌, if◌then◌else◌, ◌>>>◌,
  u16, sub16, Bool, true, false,
}
use emulator_pdp.State.{Cpu, model_eq, m1105, m1120}
use emulator_pdp.Monad.{M, get, gets, modify, ◌>>=◌, ◌>>◌}
use emulator_pdp.Access.{cpu_read_word}
use emulator_pdp.Stack.{set_r, push_word, pop_word}
use emulator_pdp.Operand.{Operand, decode_operand}
use emulator_pdp.Alu.{psw_c, psw_v, psw_z, psw_n, flag_set}
use emulator_pdp.Instr.Trap.{vec_reserved, do_trap}

unfoldable pub is_branch : ℕ → Bool
is_branch hb = leb 0o1 hb && leb hb 0o7 || leb 0o200 hb && leb hb 0o207

-- The switch of `branch_taken` over the four codes.
unfoldable pub taken : ℕ → Bool → Bool → Bool → Bool → Bool
taken hb n z v c =
    if hb == 0o1
    then true
    else if hb == 0o2
    then not z
    else if hb == 0o3
    then z
    else if hb == 0o4
    then not (xor n v)
    else if hb == 0o5
    then xor n v
    else if hb == 0o6
    then not (z || xor n v)
    else if hb == 0o7
    then z || xor n v
    else if hb == 0o200
    then not n
    else if hb == 0o201
    then n
    else if hb == 0o202
    then not c && not z
    else if hb == 0o203
    then c || z
    else if hb == 0o204
    then not v
    else if hb == 0o205
    then v
    else if hb == 0o206
    then not c
    else if hb == 0o207
    then c
    else false

unfoldable pub branch_taken : Cpu → ℕ → Bool
unfolding taken
branch_taken c hb =
    taken hb (flag_set psw_n c) (flag_set psw_z c) (flag_set psw_v c) (flag_set psw_c c)

-- `(uint16_t)(offset * 2)` for the byte read as a signed number.
unfoldable pub branch_offset : ℕ → ℕ
branch_offset word =
    let low = bit_and word 0o377 in if leb 0o200 low then sub16 (low * 2) 0o1000 else low * 2

unfoldable pub op_branch : ℕ → ℕ → Cpu → Cpu
unfolding branch_taken branch_offset
op_branch word hb c = if branch_taken c hb then set_r 7 (u16 (c.r 7 + branch_offset word)) c else c

unfoldable pub jump_target : Cpu → ℕ → Operand → ℕ
jump_target c word dst =
    let spec = bit_and word 0o77 in
    if (model_eq c.cfg.model m1105 || model_eq c.cfg.model m1120)
      && (bit_and spec 0o70 == 0o20 && not dst.is_imm)
    then c.r (bit_and spec 0o7)
    else u16 dst.addr

unfoldable pub op_jmp : ℕ → M (Unit {0})
unfolding jump_target
op_jmp word = do
  dst ← decode_operand (bit_and word 0o77) false
  if dst.is_reg then do_trap vec_reserved else modify (λ c. set_r 7 (jump_target c word dst) c)

unfoldable pub op_jsr : ℕ → M (Unit {0})
unfolding jump_target
op_jsr word = do
  let reg = bit_and (word >>> 6) 0o7
  dst ← decode_operand (bit_and word 0o77) false
  if dst.is_reg then do_trap vec_reserved else (do
    target ← gets (λ c. jump_target c word dst)
    link ← gets (λ c. c.r reg)
    push_word link
    modify (λ c. set_r reg (c.r 7) c)
    modify (set_r 7 target))

unfoldable pub op_rts : ℕ → M (Unit {0})
op_rts word = do
  let reg = bit_and word 0o7
  modify (λ c. set_r 7 (c.r reg) c)
  link ← pop_word
  modify (set_r reg link)

unfoldable pub op_sob : ℕ → Cpu → Cpu
op_sob word c =
    let reg = bit_and (word >>> 6) 0o7 in
    let offset = bit_and word 0o77 in
    let c1 = set_r reg (sub16 (c.r reg) 1) c in
    if c1.r reg == 0 then c1 else set_r 7 (sub16 (c1.r 7) (offset * 2)) c1

unfoldable pub op_ccops : ℕ → Cpu → Cpu
op_ccops word c =
    let nibble = bit_and word 0o17 in
    record c { psw = if tst word 0o20 then bit_or c.psw nibble else u16 (and_not c.psw nibble) }

unfoldable pub op_mark : ℕ → M (Unit {0})
op_mark word = do
  c ← get
  let nn = bit_and word 0o77
  let i = u16 (c.r 7 + 2 * nn)
  modify (set_r 7 (c.r 5))
  value ← cpu_read_word i
  modify (set_r 5 value)
  modify (set_r 6 (u16 (i + 2)))
