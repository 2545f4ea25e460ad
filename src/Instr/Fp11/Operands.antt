-- ===== src/Instr/Fp11/Operands.antt =====
-- src/core/cpu/cpu.c: `decode_fp`, `read_fp` and `write_fp`. C leaves open in which order two reads
-- within one expression are made: the model makes them from the left.
use emulator_pdp.Prelude.{
  ℕ, ◌+◌, ◌*◌, bit_and, bit_or, ltb, ◌==◌, if◌then◌else◌, ◌>>>◌, ◌<<<◌, u16, u64, sub16, update,
  Bool, true, false,
}
use emulator_pdp.State.{Cpu}
use emulator_pdp.Monad.{M, pure, gets, modify, skip, ◌>>=◌, ◌>>◌}
use emulator_pdp.Access.{cpu_read_word, cpu_write_word, fetch}
use emulator_pdp.Stack.{set_r}

pub record FpOp : Type 0 where
  pub is_reg : Bool
  pub imm : Bool
  pub reg : ℕ
  pub immw : ℕ
  pub addr : ℕ

abbrev fp_at_register : ℕ → FpOp
fp_at_register reg = record { is_reg = true; imm = false; reg = reg; immw = 0; addr = 0 }

abbrev fp_immediate : ℕ → FpOp
fp_immediate w = record { is_reg = false; imm = true; reg = 0; immw = w; addr = 0 }

abbrev fp_at_address : ℕ → FpOp
fp_at_address a = record {
  is_reg = false;
  imm = false;
  reg = 0;
  immw = 0;
  addr = bit_and a 0o177777;
}

-- Modes 2 and 3, where the PC gives an immediate or an absolute address.
fp_autoincrement : ℕ → ℕ → M FpOp
fp_autoincrement reg step = if reg == 7 then (do w ← fetch; pure (fp_immediate w)) else (do
  a ← gets (λ c. c.r reg)
  modify (λ c. set_r reg (u16 (c.r reg + step)) c)
  pure (fp_at_address a))

fp_autoincrement_deferred : ℕ → M FpOp
fp_autoincrement_deferred reg = if reg == 7 then (do a ← fetch; pure (fp_at_address a)) else (do
  p ← gets (λ c. c.r reg)
  a ← cpu_read_word p
  modify (λ c. set_r reg (u16 (c.r reg + 2)) c)
  pure (fp_at_address a))

-- -(Rn) by a step, and the register that it leaves.
fp_decrement : ℕ → ℕ → M ℕ
fp_decrement reg step = do modify (λ c. set_r reg (sub16 (c.r reg) step) c); gets (λ c. c.r reg)

-- The address of modes 6 and 7, before the deferral.
fp_indexed : ℕ → M ℕ
fp_indexed reg = do b ← fetch; gets (λ c. u16 (b + c.r reg))

unfoldable pub decode_fp : ℕ → ℕ → M FpOp
unfolding fp_autoincrement fp_autoincrement_deferred fp_decrement fp_indexed
decode_fp spec len_words =
    let mode = bit_and (spec >>> 3) 0o7 in
    let reg = bit_and spec 0o7 in
    let step = u16 (len_words * 2) in
    if mode == 0
    then pure (fp_at_register reg)
    else if mode == 1
    then gets (λ c. fp_at_address (c.r reg))
    else if mode == 2
    then fp_autoincrement reg step
    else if mode == 3
    then fp_autoincrement_deferred reg
    else if mode == 4
    then (do a ← fp_decrement reg step; pure (fp_at_address a))
    else if mode == 5
    then (do p ← fp_decrement reg 2; a ← cpu_read_word p; pure (fp_at_address a))
    else if mode == 6
    then (do a ← fp_indexed reg; pure (fp_at_address a))
    else (do p ← fp_indexed reg; a ← cpu_read_word p; pure (fp_at_address a))

-- Two words, the high one first.
unfoldable pub read_pair : ℕ → ℕ → M ℕ
read_pair hi lo = do h ← cpu_read_word hi; l ← cpu_read_word lo; pure (bit_or (h <<< 16) l)

unfoldable pub read_fp : FpOp → ℕ → M ℕ
unfolding read_pair
read_fp o len_words =
    if o.is_reg
    then gets (λ c. if ltb o.reg 6 then c.fac o.reg else 0)
    else if o.imm
    then pure (o.immw <<< 48)
    else (do
      h ← read_pair o.addr (u16 (o.addr + 2))
      l ← if len_words == 4 then read_pair (u16 (o.addr + 4)) (u16 (o.addr + 6)) else pure 0
      pure (bit_or (u64 (h <<< 32)) l))

abbrev pub set_fac : ℕ → ℕ → Cpu → Cpu
set_fac i v c = record c { fac = update c.fac i v }

unfoldable pub write_fp : FpOp → ℕ → ℕ → M (Unit {0})
write_fp o len_words v =
    if o.is_reg then modify (λ c. if ltb o.reg 6 then set_fac o.reg v c else c) else (do
      cpu_write_word o.addr (u16 (bit_and (v >>> 48) 0o177777))
      cpu_write_word (u16 (o.addr + 2)) (u16 (bit_and (v >>> 32) 0o177777))
      if len_words == 4
          then (do
            cpu_write_word (u16 (o.addr + 4)) (u16 (bit_and (v >>> 16) 0o177777))
            cpu_write_word (u16 (o.addr + 6)) (u16 (bit_and v 0o177777)))
          else skip)
