-- ===== src/Alu.antt =====
-- src/core/cpu/cpu.c: condition codes, and the arithmetic that sets them.
pub mod Flags
pub mod Sums
use emulator_pdp.Prelude.{
  ℕ, ◌+◌, bit_and, bit_or, bit_xor, and_not, tst, xor, not, ◌==◌, if◌then◌else◌, u16, Bool,
}
use emulator_pdp.State.{Cpu}

abbrev pub psw_c : ℕ
psw_c = 0o1

abbrev pub psw_v : ℕ
psw_v = 0o2

abbrev pub psw_z : ℕ
psw_z = 0o4

abbrev pub psw_n : ℕ
psw_n = 0o10

abbrev pub width_msb : Bool → ℕ
width_msb bytemode = if bytemode then 0o200 else 0o100000

abbrev pub width_mask : Bool → ℕ
width_mask bytemode = if bytemode then 0o377 else 0o177777

abbrev pub width_carry : Bool → ℕ
width_carry bytemode = if bytemode then 0o400 else 0o200000

unfoldable pub set_flag : ℕ → Bool → Cpu → Cpu
set_flag flag on c =
    if c.cc_frozen
    then c
    else record c { psw = if on then bit_or c.psw flag else u16 (and_not c.psw flag) }

abbrev pub flag_set : ℕ → Cpu → Bool
flag_set flag c = tst c.psw flag

unfoldable pub set_nz : ℕ → Bool → Cpu → Cpu
set_nz result bytemode c =
    set_flag psw_z (bit_and result (width_mask bytemode) == 0)
      (set_flag psw_n (tst result (width_msb bytemode)) c)

unfoldable pub set_v_from_nc : Cpu → Cpu
set_v_from_nc c = set_flag psw_v (xor (flag_set psw_n c) (flag_set psw_c c)) c

-- All four codes, in the order in which the code sets them.
unfoldable pub set_nzvc : ℕ → Bool → Bool → Bool → Cpu → Cpu
set_nzvc result bytemode v carry c =
    set_flag psw_c carry (set_flag psw_v v (set_nz result bytemode c))

-- The sum and the difference as values, with their overflow and carry.
abbrev pub sum_of : ℕ → ℕ → Bool → ℕ
sum_of x y bytemode = let mask = width_mask bytemode in bit_and x mask + bit_and y mask

abbrev pub diff_of : ℕ → ℕ → Bool → ℕ
diff_of x y bytemode = let mask = width_mask bytemode in bit_and x mask + and_not mask y + 1

unfoldable pub alu_add : ℕ → ℕ → Bool → Cpu → ℕ × Cpu
unfolding set_nzvc
alu_add x y bytemode c =
    let sum = sum_of x y bytemode in
    let result = u16 (bit_and sum (width_mask bytemode)) in
    let v = tst (and_not (bit_xor x result) (bit_xor x y)) (width_msb bytemode) in
    (result, set_nzvc result bytemode v (tst sum (width_carry bytemode)) c)

unfoldable pub alu_sub : ℕ → ℕ → Bool → Cpu → ℕ × Cpu
unfolding set_nzvc
alu_sub x y bytemode c =
    let sum = diff_of x y bytemode in
    let result = u16 (bit_and sum (width_mask bytemode)) in
    let v = tst (bit_and (bit_xor x y) (bit_xor x result)) (width_msb bytemode) in
    (result, set_nzvc result bytemode v (not (tst sum (width_carry bytemode))) c)
