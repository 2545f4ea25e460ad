-- ===== src/Instr/Eis.antt =====
-- src/core/cpu/cpu.c: MUL, DIV, ASH, ASHC and XOR. An `int32_t` is given by its 32 bits.
use emulator_pdp.Prelude.{
  ℕ, ◌+◌, ◌-◌, ◌*◌, ◌/◌, ◌^◌, bit_and, bit_or, bit_xor, tst, xor, not, ltb, leb, ◌==◌, ◌&&◌, ◌||◌,
  if◌then◌else◌, ◌>>>◌, ◌<<<◌, u16, u32, sub32, Bool, true, false,
}
use emulator_pdp.State.{Cpu}
use emulator_pdp.Monad.{M, gets, modify, ◌>>=◌, ◌>>◌}
use emulator_pdp.Stack.{set_r}
use emulator_pdp.Operand.{decode_operand, read_operand, write_operand}
use emulator_pdp.Alu.{psw_c, psw_v, psw_z, psw_n, set_flag, set_nz}

-- The sign of the number that 32 bits stand for.
abbrev pub is_neg : ℕ → Bool
is_neg p = leb (2 ^ 31) p

abbrev pub neg32 : ℕ → ℕ
neg32 p = sub32 0 p

abbrev pub magnitude : ℕ → ℕ
magnitude p = if is_neg p then neg32 p else p

unfoldable pub sext16 : ℕ → ℕ
sext16 v = if leb 0o100000 v then v + 0xffff_0000 else v

-- Neither above 32767 nor below -32768.
abbrev pub fits16 : ℕ → Bool
fits16 p = ltb p (2 ^ 15) || leb (2 ^ 32 - 2 ^ 15) p

-- `x >> k` on `int32_t`.
unfoldable pub asr32 : ℕ → ℕ → ℕ
asr32 x k = x / 2 ^ k + (if is_neg x then 2 ^ 32 - 2 ^ (32 - k) else 0)

abbrev pub set_pair : ℕ → ℕ → ℕ → Cpu → Cpu
set_pair reg hi lo c = set_r (bit_or reg 1) lo (set_r reg hi c)

abbrev pub set_codes : Bool → Bool → Bool → Bool → Cpu → Cpu
set_codes n z v carry c =
    set_flag psw_c carry (set_flag psw_v v (set_flag psw_z z (set_flag psw_n n c)))

abbrev reg_of : ℕ → ℕ
reg_of word = bit_and (word >>> 6) 0o7

unfoldable pub mul_result : ℕ → ℕ → ℕ → Cpu → Cpu
unfolding sext16
mul_result reg src src2 c =
    let dst = u32 (sext16 src * sext16 src2) in
    set_codes (is_neg dst) (dst == 0) false (not (fits16 dst))
      (set_pair reg (u16 (dst >>> 16)) (u16 (bit_and dst 0o177777)) c)

abbrev operand_word : ℕ → M ℕ
operand_word word = do s ← decode_operand (bit_and word 0o77) false; read_operand s false

unfoldable pub op_mul : ℕ → M (Unit {0})
unfolding mul_result
op_mul word = do
  src2 ← operand_word word
  modify (λ c. mul_result (reg_of word) (c.r (reg_of word)) src2 c)

-- The quotient of C, which rounds to 0.
unfoldable pub quotient : ℕ → ℕ → ℕ
quotient src src2 =
    let q = magnitude src / magnitude src2 in if xor (is_neg src) (is_neg src2) then neg32 q else q

abbrev set_eis_ns : ℕ → Cpu → Cpu
set_eis_ns ns c = record c { eis_extra_ns = ns }

-- A quotient that is computed: in range it is stored with the remainder.
unfoldable pub div_store : ℕ → ℕ → ℕ → Cpu → Cpu
unfolding quotient
div_store reg src src2 c =
    let dst = quotient src src2 in
    let rem = sub32 src (u32 (src2 * dst)) in
    let c1 = set_flag psw_n (is_neg dst) c in
    if not (fits16 dst)
    then set_flag psw_c false (set_flag psw_z false (set_flag psw_v true c1))
    else set_flag psw_c false (
        set_flag psw_v false (
          set_flag psw_z (dst == 0)
            (set_pair reg (u16 (bit_and dst 0o177777)) (u16 (bit_and rem 0o177777)) c1)))

unfoldable pub div_result : ℕ → ℕ → ℕ → Cpu → Cpu
unfolding div_store sext16
div_result reg srcu src2u c =
    if src2u == 0
    then set_flag psw_c true (set_flag psw_v true (set_flag psw_z true (set_flag psw_n false c)))
    else (let c1 = set_eis_ns 6150 c in
        if srcu == 0o20000000000 && src2u == 0o177777
        then set_flag psw_c false
            (set_flag psw_z false (set_flag psw_n false (set_flag psw_v true c1)))
        else div_store reg srcu (sext16 src2u) c1)

-- The register pair that DIV and ASHC read.
abbrev pub pair_of : ℕ → Cpu → ℕ
pair_of reg c = bit_or (c.r reg <<< 16) (c.r (bit_or reg 1))

unfoldable pub op_div : ℕ → M (Unit {0})
unfolding div_result
op_div word = do
  src2 ← operand_word word
  modify (λ c. div_result (reg_of word) (pair_of (reg_of word) c) src2 c)

-- The value, the overflow and the carry of a shift.
pub record Shifted : Type 0 where
  pub dst : ℕ
  pub v : Bool
  pub carry : Bool

abbrev pub ones_if : Bool → ℕ
ones_if sign = if sign then 0xffff_ffff else 0

-- A shift to the right by 64 - sh, for sh from 33.
right_shift : ℕ → Bool → ℕ → Shifted
right_shift sh sign src = record {
  dst = bit_or (asr32 src (64 - sh)) (u32 (ones_if sign <<< (sh - 32)));
  v = false;
  carry = tst (asr32 src (63 - sh)) 1;
}

unfoldable pub ash_shift : ℕ → Bool → ℕ → Shifted
unfolding asr32 right_shift
ash_shift sh sign src =
    if sh == 0
    then record { dst = src; v = false; carry = false }
    else if leb sh 15
    then (let dst = u32 (src <<< sh) in
        let i = bit_and (asr32 src (16 - sh)) 0o177777 in
        record {
          dst = dst;
          v = not (i == (if tst dst 0o100000 then 0o177777 else 0));
          carry = tst i 1;
        })
    else if leb sh 31
    then record { dst = 0; v = not (src == 0); carry = tst (u32 (src <<< (sh - 16))) 1 }
    else if sh == 32
    then record { dst = ones_if sign; v = false; carry = sign }
    else right_shift sh sign src

abbrev shift_ns : ℕ → ℕ
shift_ns sh = 150 * (if leb sh 31 then sh else 64 - sh)

unfoldable pub ash_result : ℕ → ℕ → Cpu → Cpu
unfolding ash_shift
ash_result reg sh c =
    let sign = tst (c.r reg) 0o100000 in
    let src = if sign then bit_or (c.r reg) 0xffff_8000 else c.r reg in
    let out = ash_shift sh sign src in
    let low = u16 (bit_and out.dst 0o177777) in
    set_flag psw_c out.carry
      (set_flag psw_v out.v (set_nz low false (set_r reg low (set_eis_ns (shift_ns sh) c))))

unfoldable pub op_ash : ℕ → M (Unit {0})
unfolding ash_result
op_ash word = do value ← operand_word word; modify (ash_result (reg_of word) (bit_and value 0o77))

unfoldable pub ashc_shift : ℕ → Bool → ℕ → Shifted
unfolding asr32 right_shift
ashc_shift sh sign src =
    if sh == 0
    then record { dst = src; v = false; carry = false }
    else if leb sh 31
    then (let dst = u32 (src <<< sh) in
        let i = bit_or (asr32 src (32 - sh)) (u32 (ones_if sign <<< sh)) in
        record { dst = dst; v = not (i == ones_if (is_neg dst)); carry = tst i 1 })
    else if sh == 32
    then record { dst = ones_if sign; v = false; carry = sign }
    else right_shift sh sign src

unfoldable pub ashc_result : ℕ → ℕ → Cpu → Cpu
unfolding ashc_shift
ashc_result reg sh c =
    let sign = tst (c.r reg) 0o100000 in
    let out = ashc_shift sh sign (pair_of reg c) in
    let hi = u16 (out.dst >>> 16) in
    let lo = u16 (bit_and out.dst 0o177777) in
    set_codes (tst hi 0o100000) (bit_or hi lo == 0) out.v out.carry
      (set_pair reg hi lo (set_eis_ns (shift_ns sh) c))

unfoldable pub op_ashc : ℕ → M (Unit {0})
unfolding ashc_result
op_ashc word = do value ← operand_word word; modify (ashc_result (reg_of word) (bit_and value 0o77))

unfoldable pub op_xor : ℕ → M (Unit {0})
op_xor word = do
  d ← decode_operand (bit_and word 0o77) false
  value ← read_operand d false
  result ← gets (λ c. u16 (bit_xor value (c.r (reg_of word))))
  write_operand d false result
  modify (λ c. set_flag psw_v false (set_nz result false c))
