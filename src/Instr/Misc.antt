-- ===== src/Instr/Misc.antt =====
-- src/core/cpu/cpu.c: the decode of every word that is not a plain double-operand instruction.
use emulator_pdp.Prelude.{
  ℕ, bit_and, bit_or, and_not, tst, not, leb, ◌==◌, ◌&&◌, ◌||◌, if◌then◌else◌, ◌>>>◌, ◌<<<◌, u16,
  field, Bool, true, false, Option, none, some,
}
use emulator_pdp.State.{Cpu}
use emulator_pdp.Monad.{M, modify, ok}
use emulator_pdp.Stack.{set_r}
use emulator_pdp.Instr.Single.{single_op}
use emulator_pdp.Instr.Flow.{
  is_branch, op_branch, op_jmp, op_jsr, op_rts, op_sob, op_ccops, op_mark,
}
use emulator_pdp.Instr.Trap.{do_trap, op_rti, vec_reserved, vec_bpt, vec_iot, vec_emt, vec_trap}
use emulator_pdp.Instr.Eis.{op_mul, op_div, op_ash, op_ashc, op_xor}
use emulator_pdp.Instr.Mode.{op_mfp, op_mtp}

-- An instruction that the model may lack.
gated : Bool → M (Unit {0}) → M (Unit {0})
gated has op = if has then op else do_trap vec_reserved

-- `none` where the word is no single-operand instruction.
unfoldable pub try_single_op : ℕ → Cpu → Option (M (Unit {0}))
unfolding gated
try_single_op word c =
    let code = bit_and (word >>> 6) 0o1777 in
    let bytemode = tst code 0o1000 in
    let base = bit_and code 0o777 in
    if base == 0o3 && not bytemode
    then some (single_op word 0o3 false)
    else if base == 0o64 && not bytemode
    then some (gated c.cfg.has_mark (op_mark word))
    else if base == 0o65
    then some (op_mfp word bytemode)
    else if base == 0o66
    then some (op_mtp word bytemode)
    else if leb 0o50 base && leb base 0o63
    then some (single_op word base bytemode)
    else if not bytemode && base == 0o67
    then some (gated c.cfg.has_sxs (single_op word 0o67 false))
    else none

-- SPL: privileged, and absent on most models.
unfoldable pub op_spl : ℕ → M (Unit {0})
op_spl word c =
    if not c.cfg.has_spl
    then do_trap vec_reserved c
    else if field c.psw 14 2 == 0
    then ok tt (record c { psw = u16 (bit_or (and_not c.psw 0o340) (bit_and word 0o7 <<< 5)) })
    else ok tt c

-- RESET: the bus INIT.
unfoldable pub op_reset : Cpu → Cpu
op_reset c =
    let rk = c.rk in
    let rp = c.rp in
    let tm = c.tm in
    record c {
      pirq = 0;
      int_req = 0;
      clk_csr = 0o200;
      tti_csr = 0;
      tto_csr = 0o200;
      tto_busy = false;
      rk = record rk { rkcs = 0o200; rker = 0; busy = false };
      rp = record rp { cs1 = 0o200; er1 = 0; busy = false };
      tm = record tm { cmd = 0o200; sta = 0; busy = false };
    }

op_mfpt : M (Unit {0})
op_mfpt c =
    if not (c.cfg.mfpt_code == 0) then ok tt (set_r 0 c.cfg.mfpt_code c) else do_trap vec_reserved c

-- The words from RTI on.
decode_control : ℕ → M (Unit {0})
unfolding gated op_mfpt op_reset
decode_control word c =
    if word == 0o2
    then op_rti false c
    else if word == 0o6
    then gated c.cfg.has_rtt (op_rti true) c
    else if word == 0o7
    then op_mfpt c
    else if word == 0o3
    then do_trap vec_bpt c
    else if word == 0o4
    then do_trap vec_iot c
    else if word == 0
    then ok tt (record c { halted = true })
    else if word == 0o1
    then ok tt (record c { waiting = true })
    else if word == 0o5
    then ok tt (op_reset c)
    else if bit_and word 0o177700 == 0o106400
        || (bit_and word 0o177700 == 0o106700
            || (bit_and word 0o177000 == 0o75000 || bit_and word 0o177000 == 0o76000))
    then do_trap vec_reserved c
    else ok tt c

-- The group with its operation in bits 15 to 9, and EMT and TRAP.
decode_group : ℕ → M (Unit {0})
unfolding gated decode_control
decode_group word c =
    let group = bit_and word 0o177000 in
    if group == 0o4000
    then op_jsr word c
    else if group == 0o70000
    then gated c.cfg.has_eis (op_mul word) c
    else if group == 0o71000
    then gated c.cfg.has_eis (op_div word) c
    else if group == 0o72000
    then gated c.cfg.has_eis (op_ash word) c
    else if group == 0o73000
    then gated c.cfg.has_eis (op_ashc word) c
    else if group == 0o74000
    then gated c.cfg.has_sxs (op_xor word) c
    else if group == 0o77000
    then gated c.cfg.has_sxs (modify (op_sob word)) c
    else if bit_and word 0o177400 == 0o104000
    then do_trap vec_emt c
    else if bit_and word 0o177400 == 0o104400
    then do_trap vec_trap c
    else decode_control word c

unfoldable pub decode_misc : ℕ → M (Unit {0})
unfolding decode_group op_spl
decode_misc word c = elim (try_single_op word c) [
  | some op ↦ op c
  | none ↦
      let hb = u16 (word >>> 8) in
      if is_branch hb
      then ok tt (op_branch word hb c)
      else if leb 0o100 word && leb word 0o177
      then op_jmp word c
      else if leb 0o200 word && leb word 0o207
      then op_rts word c
      else if leb 0o230 word && leb word 0o237
      then op_spl word c
      else if leb 0o240 word && leb word 0o277
      then ok tt (op_ccops word c)
      else decode_group word c
]
