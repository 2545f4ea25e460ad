-- ===== src/Operand.antt =====
-- src/core/cpu/cpu.c: the eight addressing modes, and operands read and written at their width.
use emulator_pdp.Prelude.{
  ℕ, ◌+◌, bit_and, bit_or, tst, not, ltb, ◌==◌, ◌&&◌, ◌||◌, if◌then◌else◌, ◌>>>◌, ◌<<<◌, u8, u16,
  sub16, Bool, true, false,
}
use emulator_pdp.State.{Cpu}
use emulator_pdp.Monad.{M, pure, get, gets, modify, skip, ◌>>=◌, ◌>>◌}
use emulator_pdp.Access.{cpu_read_word, cpu_write_word, cpu_read_byte, cpu_write_byte, fetch}
use emulator_pdp.Stack.{set_r, check_stack_limit}
use emulator_pdp.Mmu.{mmr0_freeze}

pub record Operand : Type 0 where
  pub is_reg : Bool
  pub is_imm : Bool
  pub reg : ℕ
  pub imm : ℕ
  pub addr : ℕ

abbrev pub at_register : ℕ → Operand
at_register reg = record { is_reg = true; is_imm = false; reg = reg; imm = 0; addr = 0 }

abbrev pub at_address : ℕ → Operand
at_address a = record {
  is_reg = false;
  is_imm = false;
  reg = 0;
  imm = 0;
  addr = bit_and a 0o177777;
}

abbrev pub immediate : ℕ → ℕ → Operand
immediate a v = record {
  is_reg = false;
  is_imm = true;
  reg = 0;
  imm = v;
  addr = bit_and a 0o177777;
}

unfoldable pub operand_step : ℕ → Bool → ℕ
operand_step reg bytemode = if bytemode && ltb reg 6 then 1 else 2

-- `delta` is given as the 16 bits that the code casts it to.
unfoldable pub mmr1_track : ℕ → ℕ → Cpu → Cpu
mmr1_track reg delta c =
    if not c.cfg.has_mmu || reg == 7 || tst c.mmr0 mmr0_freeze
    then c
    else (let enc = u16 (bit_or (bit_and delta 0o37 <<< 3) reg) in
        record c { mmr1 = if c.mmr1 == 0 then enc else u16 (bit_or (enc <<< 8) c.mmr1) })

abbrev check_sp : ℕ → M (Unit {0})
check_sp reg c = if reg == 6 then check_stack_limit (c.r 6) c else skip c

-- (Rn)+ and the immediate.
autoincrement : ℕ → Bool → M Operand
unfolding mmr1_track operand_step
autoincrement reg bytemode =
    if reg == 7 then (do c ← get; value ← fetch; pure (immediate (c.r 7) value)) else (do
      c ← get
      let step = operand_step reg bytemode
      modify (λ s. mmr1_track reg step (set_r reg (u16 (s.r reg + step)) s))
      pure (at_address (c.r reg)))

-- @(Rn)+ and the absolute address.
autoincrement_deferred : ℕ → M Operand
unfolding mmr1_track
autoincrement_deferred reg = if reg == 7 then (do a ← fetch; pure (at_address a)) else (do
  c ← get
  a ← cpu_read_word (c.r reg)
  modify (λ s. mmr1_track reg 2 (set_r reg (u16 (s.r reg + 2)) s))
  pure (at_address a))

-- -(Rn).
autodecrement : ℕ → Bool → M Operand
unfolding mmr1_track operand_step
autodecrement reg bytemode = do
  let step = operand_step reg bytemode
  modify (λ s. set_r reg (sub16 (s.r reg) step) s)
  a ← gets (λ s. s.r reg)
  modify (mmr1_track reg (sub16 0 step))
  check_sp reg
  pure (at_address a)

-- @-(Rn).
autodecrement_deferred : ℕ → M Operand
unfolding mmr1_track
autodecrement_deferred reg = do
  modify (λ s. set_r reg (sub16 (s.r reg) 2) s)
  check_sp reg
  c ← get
  a ← cpu_read_word (c.r reg)
  modify (mmr1_track reg (sub16 0 2))
  pure (at_address a)

-- X(Rn), and the word that @X(Rn) goes through.
indexed : ℕ → M ℕ
indexed reg = do base ← fetch; gets (λ c. u16 (base + c.r reg))

unfoldable pub decode_operand : ℕ → Bool → M Operand
unfolding autoincrement autoincrement_deferred autodecrement autodecrement_deferred indexed
decode_operand spec bytemode =
    let mode = bit_and (spec >>> 3) 0o7 in
    let reg = bit_and spec 0o7 in
    if mode == 0
    then pure (at_register reg)
    else if mode == 1
    then gets (λ c. at_address (c.r reg))
    else if mode == 2
    then autoincrement reg bytemode
    else if mode == 3
    then autoincrement_deferred reg
    else if mode == 4
    then autodecrement reg bytemode
    else if mode == 5
    then autodecrement_deferred reg
    else if mode == 6
    then (do a ← indexed reg; pure (at_address a))
    else (do p ← indexed reg; a ← cpu_read_word p; pure (at_address a))

unfoldable pub read_operand : Operand → Bool → M ℕ
read_operand op bytemode =
    if op.is_reg
    then gets (λ c. if bytemode then bit_and (c.r op.reg) 0o377 else c.r op.reg)
    else if op.is_imm
    then pure (if bytemode then bit_and op.imm 0o377 else op.imm)
    else if bytemode
    then cpu_read_byte op.addr
    else cpu_read_word op.addr

unfoldable pub write_operand : Operand → Bool → ℕ → M (Unit {0})
write_operand op bytemode value =
    if op.is_reg
    then modify (λ c.
      set_r op.reg
        (if bytemode
          then u16 (bit_or (bit_and (c.r op.reg) 0o177400) (bit_and value 0o377))
          else value)
        c)
    else if bytemode
    then cpu_write_byte op.addr (u8 value)
    else cpu_write_word op.addr value
