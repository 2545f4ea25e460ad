-- ===== src/Instr/Fp11/Codes.antt =====
-- src/core/cpu/cpu.c: the condition codes of the FPS, the FPE trap, and the time of an instruction.
use emulator_pdp.Prelude.{
  ℕ, bit_and, bit_or, tst, and_not, ◌==◌, ◌||◌, if◌then◌else◌, ◌>>>◌, u16, sub16, Bool,
}
use emulator_pdp.State.{Cpu}
use emulator_pdp.Monad.{M, modify, skip, ◌>>◌}
use emulator_pdp.Instr.Trap.{do_trap}
use emulator_pdp.Fp.Round.{fps_z, fps_n}

abbrev pub fps_cc : ℕ
fps_cc = 0o17

abbrev pub fps_iv : ℕ
fps_iv = 0o1000

abbrev pub fps_iu : ℕ
fps_iu = 0o2000

abbrev pub fps_id : ℕ
fps_id = 0o40000

abbrev pub fps_er : ℕ
fps_er = 0o100000

abbrev pub fps_rw : ℕ
fps_rw = 0o147757

abbrev pub fp_signbit : ℕ
fp_signbit = 0x8000_0000_0000_0000

abbrev pub vec_fpe : ℕ
vec_fpe = 0o244

-- The registers of an exception.
unfoldable pub record_fpe : ℕ → ℕ → Cpu → Cpu
record_fpe fec entry_pc c = record c {
  fps = bit_or c.fps fps_er;
  fec = u16 fec;
  fea = sub16 entry_pc 2;
}

unfoldable pub post_fpe : ℕ → ℕ → M (Unit {0})
unfolding record_fpe
post_fpe fec entry_pc = do
  modify (record_fpe fec entry_pc)
  λ c. if tst c.fps fps_id then skip c else do_trap vec_fpe c

-- `if (fec) { post_fpe(...); }`
unfoldable pub post_if : ℕ → ℕ → M (Unit {0})
unfolding post_fpe
post_if fec entry_pc = if fec == 0 then skip else post_fpe fec entry_pc

abbrev pub fp_exp : ℕ → ℕ
fp_exp v = bit_and (v >>> 55) 0o377

unfoldable pub fp_setcc : ℕ → ℕ → ℕ → ℕ
fp_setcc fps v newv =
    let base = u16 (bit_or (and_not fps fps_cc) newv) in
    let signed = if tst v fp_signbit then bit_or base fps_n else base in
    if fp_exp v == 0 then bit_or signed fps_z else signed

abbrev pub set_fps : ℕ → Cpu → Cpu
set_fps v c = record c { fps = v }

-- The FPS with other condition codes.
abbrev pub put_fps_cc : ℕ → Cpu → Cpu
put_fps_cc cc c = set_fps (u16 (bit_or (and_not c.fps fps_cc) cc)) c

-- The codes of the processor, which STEXP and STCFI set too.
abbrev pub put_psw_cc : ℕ → Cpu → Cpu
put_psw_cc cc c = record c { psw = u16 (bit_or (and_not c.psw 0o17) cc) }

unfoldable pub fp_exec_ns : ℕ → ℕ → Bool → ℕ
fp_exec_ns major subop dbl =
    if major == 0o2
    then (if dbl then 3060 else 1800)
    else if major == 0o3
    then (if dbl then 5990 else 2880)
    else if major == 0o4 || major == 0o6
    then 900
    else if major == 0o5 || major == 0o10
    then 360
    else if major == 0o7
    then 540
    else if major == 0o11
    then (if dbl then 3120 else 1920)
    else if major == 0o1
    then 180
    else if major == 0
    then (if subop == 1 then 180 else 0)
    else 540
