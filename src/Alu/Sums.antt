-- ===== src/Alu/Sums.antt =====
-- `alu_add` and `alu_sub`: the result and the codes as arithmetic, at both widths.
use emulator_pdp.Prelude.{
  ℕ, ◌+◌, ◌-◌, ◌*◌, ◌^◌, ◌%◌, ◌<◌, bit_and, bit_xor, and_not, tst, u16, Bool, true, false, ◌≡◌,
  refl, ap, ◌∙◌, leb, ltb, ◌==◌, ◌&&◌, not, arith, if◌then◌else◌,
}
use emulator_pdp.State.{Cpu}
use emulator_pdp.Bits.{
  bit, bit-7, bit-15, bit-bit_and, bit-bit_xor, bit-and_not, bit_and_low, bit_and_parts,
  bit_and_low_of_lt, and_not-add-bit_and, bit_and_comm,
}
use emulator_pdp.Alu.{
  alu_add, alu_sub, sum_of, diff_of, width_mask, width_msb, width_carry, flag_set, psw_n, psw_z,
  psw_v, psw_c,
}
use emulator_pdp.Alu.Flags.{set_nzvc-codes}

-- Half and all of the numbers of a width.
abbrev pub half : Bool → ℕ
half bytemode = if bytemode then 2 ^ 7 else 2 ^ 15

abbrev pub span : Bool → ℕ
span bytemode = if bytemode then 2 ^ 8 else 2 ^ 16

tst_7 : (x : ℕ) → tst x (2 ^ 7) ≡ (bit 7 x == 1)
tst_7 x =
    ground
      (arith, bit-7 x, bit_and_parts x (2 ^ 7 - 1) (2 ^ 7) refl, bit_and_low 7 x, bit_and_low 8 x)

tst_15 : (x : ℕ) → tst x (2 ^ 15) ≡ (bit 15 x == 1)
tst_15 x = ground (
  arith,
  bit-15 x,
  bit_and_parts x (2 ^ 15 - 1) (2 ^ 15) refl,
  bit_and_low 15 x,
  bit_and_low 16 x,
)

tst_8 : (x : ℕ) → x < 2 ^ 9 → tst x (2 ^ 8) ≡ leb (2 ^ 8) x
tst_8 x h =
    ground (arith, bit_and_parts x (2 ^ 8 - 1) (2 ^ 8) refl, bit_and_low 8 x, bit_and_low 9 x)

tst_16 : (x : ℕ) → x < 2 ^ 17 → tst x (2 ^ 16) ≡ leb (2 ^ 16) x
tst_16 x h =
    ground (arith, bit_and_parts x (2 ^ 16 - 1) (2 ^ 16) refl, bit_and_low 16 x, bit_and_low 17 x)

-- A number of the width seen from its least value, -half, up.
abbrev pub biased : Bool → ℕ → ℕ
biased bytemode x = (x + half bytemode) % span bytemode

-- The signed sum of two biased numbers is one of the width.
abbrev pub sum_fits : Bool → ℕ → ℕ → Bool
sum_fits bytemode x y =
    let s = biased bytemode x + biased bytemode y in
    leb (half bytemode) s && ltb s (half bytemode + span bytemode)

abbrev pub diff_fits : Bool → ℕ → ℕ → Bool
diff_fits bytemode x y =
    leb (biased bytemode y) (biased bytemode x + half bytemode)
    && ltb (biased bytemode x) (biased bytemode y + half bytemode)

sum_of-add : (x y : ℕ) (b : Bool) → x < span b → y < span b → sum_of x y b ≡ x + y
sum_of-add x y true hx hy = omega (arith, bit_and_low_of_lt 8 x hx, bit_and_low_of_lt 8 y hy)
sum_of-add x y false hx hy = omega (arith, bit_and_low_of_lt 16 x hx, bit_and_low_of_lt 16 y hy)

diff_of-sub : (x y : ℕ) (b : Bool) → x < span b → y < span b → diff_of x y b ≡ x + span b - y
diff_of-sub x y true hx hy = omega (
  arith,
  bit_and_low_of_lt 8 x hx,
  bit_and_low_of_lt 8 y hy,
  and_not-add-bit_and (2 ^ 8 - 1) y,
  bit_and_comm (2 ^ 8 - 1) y,
)
diff_of-sub x y false hx hy = omega (
  arith,
  bit_and_low_of_lt 16 x hx,
  bit_and_low_of_lt 16 y hy,
  and_not-add-bit_and (2 ^ 16 - 1) y,
  bit_and_comm (2 ^ 16 - 1) y,
)

masked : (x : ℕ) (b : Bool) → u16 (bit_and x (width_mask b)) ≡ x % span b
masked x true = omega (arith, bit_and_low 8 x)
masked x false = omega (arith, bit_and_low 16 x)

carry_of : (x : ℕ) (b : Bool) → x < 2 * span b → tst x (width_carry b) ≡ leb (span b) x
carry_of x true h = tst_8 x h
carry_of x false h = tst_16 x h

sign_of : (x : ℕ) (b : Bool) → x < span b → tst x (width_msb b) ≡ leb (half b) x
sign_of x true h = rw tst_7 (ground (arith, bit-7 x))
sign_of x false h = rw tst_15 (ground (arith, bit-15 x))

zero_of : (x : ℕ) (b : Bool) → x < span b → (bit_and x (width_mask b) == 0) ≡ (x == 0)
zero_of x true h = ap (λ t. t == 0) (bit_and_low_of_lt 8 x h)
zero_of x false h = ap (λ t. t == 0) (bit_and_low_of_lt 16 x h)

add_overflow :
    (x y : ℕ) (b : Bool) (r : ℕ)
    → x < span b
    → y < span b
    → r ≡ (x + y) % span b
    → tst (and_not (bit_xor x r) (bit_xor x y)) (width_msb b) ≡ not (sum_fits b x y)
add_overflow x y true r hx hy hr = rw tst_7 (
    ground (
      arith,
      bit-and_not 7 (bit_xor x r) (bit_xor x y),
      bit-bit_xor 7 x r,
      bit-bit_xor 7 x y,
      bit-7 x,
      bit-7 y,
      bit-7 r,
    ))
add_overflow x y false r hx hy hr = rw tst_15 (
    ground (
      arith,
      bit-and_not 15 (bit_xor x r) (bit_xor x y),
      bit-bit_xor 15 x r,
      bit-bit_xor 15 x y,
      bit-15 x,
      bit-15 y,
      bit-15 r,
    ))

sub_overflow :
    (x y : ℕ) (b : Bool) (r : ℕ)
    → x < span b
    → y < span b
    → r ≡ (x + span b - y) % span b
    → tst (bit_and (bit_xor x y) (bit_xor x r)) (width_msb b) ≡ not (diff_fits b x y)
sub_overflow x y true r hx hy hr = rw tst_7 (
    ground (
      arith,
      bit-bit_and 7 (bit_xor x y) (bit_xor x r),
      bit-bit_xor 7 x r,
      bit-bit_xor 7 x y,
      bit-7 x,
      bit-7 y,
      bit-7 r,
    ))
sub_overflow x y false r hx hy hr = rw tst_15 (
    ground (
      arith,
      bit-bit_and 15 (bit_xor x y) (bit_xor x r),
      bit-bit_xor 15 x r,
      bit-bit_xor 15 x y,
      bit-15 x,
      bit-15 y,
      bit-15 r,
    ))

mod_lt : (s : ℕ) (b : Bool) → s % span b < span b
mod_lt s true = omega arith
mod_lt s false = omega arith

add_lt : (x y : ℕ) (b : Bool) → x < span b → y < span b → x + y < 2 * span b
add_lt x y b hx hy = omega arith

-- The codes Z and N of a result in terms of the number it stands for.
result_zero :
    (r s : ℕ) (b : Bool) → r ≡ s % span b → (bit_and r (width_mask b) == 0) ≡ (s % span b == 0)
result_zero r s b e = rw e (zero_of (s % span b) b (mod_lt s b))

result_sign :
    (r s : ℕ) (b : Bool) → r ≡ s % span b → tst r (width_msb b) ≡ leb (half b) (s % span b)
result_sign r s b e = rw e (sign_of (s % span b) b (mod_lt s b))

-- An addition of two numbers of the width, the codes not frozen: the result is the sum modulo the
-- width, C says that the sum passes the width, V that the signed sum is not a number of the width,
-- Z that the result is 0 and N that its top bit is set.
pub alu_add-codes :
    (x y : ℕ) (b : Bool) (c : Cpu)
    → x < span b
    → y < span b
    → c.cc_frozen ≡ false
    → ((alu_add x y b c).0 ≡ (x + y) % span b)
      × (flag_set psw_c (alu_add x y b c).1 ≡ leb (span b) (x + y))
      × (flag_set psw_v (alu_add x y b c).1 ≡ not (sum_fits b x y))
      × (flag_set psw_z (alu_add x y b c).1 ≡ ((x + y) % span b == 0))
      × (flag_set psw_n (alu_add x y b c).1 ≡ leb (half b) ((x + y) % span b))
unfolding alu_add
alu_add-codes x y b c hx hy live =
    let total : sum_of x y b ≡ x + y = sum_of-add x y b hx hy in
    let r = u16 (bit_and (sum_of x y b) (width_mask b)) in
    let er : r ≡ (x + y) % span b = masked (sum_of x y b) b ∙ ap (λ t. t % span b) total in
    let codes =
      set_nzvc-codes r b (tst (and_not (bit_xor x r) (bit_xor x y)) (width_msb b))
        (tst (sum_of x y b) (width_carry b)) c live in
    (
      er,
      codes.0 ∙ ap (λ t. tst t (width_carry b)) total ∙ carry_of (x + y) b (add_lt x y b hx hy),
      codes.1 ∙ add_overflow x y b r hx hy er,
      codes.2 ∙ result_zero r (x + y) b er,
      codes.3 ∙ result_sign r (x + y) b er,
    )

borrow_of :
    (x y : ℕ) (b : Bool)
    → x < span b
    → y < span b
    → not (tst (x + span b - y) (width_carry b)) ≡ ltb x y
borrow_of x y b hx hy = ground (arith, carry_of (x + span b - y) b)

-- A subtraction of two numbers of the width, the codes not frozen: the result is the difference
-- modulo the width, C is the borrow, V says that the signed difference is not a number of the
-- width, Z that the result is 0 and N that its top bit is set.
pub alu_sub-codes :
    (x y : ℕ) (b : Bool) (c : Cpu)
    → x < span b
    → y < span b
    → c.cc_frozen ≡ false
    → ((alu_sub x y b c).0 ≡ (x + span b - y) % span b)
      × (flag_set psw_c (alu_sub x y b c).1 ≡ ltb x y)
      × (flag_set psw_v (alu_sub x y b c).1 ≡ not (diff_fits b x y))
      × (flag_set psw_z (alu_sub x y b c).1 ≡ ((x + span b - y) % span b == 0))
      × (flag_set psw_n (alu_sub x y b c).1 ≡ leb (half b) ((x + span b - y) % span b))
unfolding alu_sub
alu_sub-codes x y b c hx hy live =
    let total : diff_of x y b ≡ x + span b - y = diff_of-sub x y b hx hy in
    let r = u16 (bit_and (diff_of x y b) (width_mask b)) in
    let er : r ≡ (x + span b - y) % span b =
      masked (diff_of x y b) b ∙ ap (λ t. t % span b) total in
    let codes =
      set_nzvc-codes r b (tst (bit_and (bit_xor x y) (bit_xor x r)) (width_msb b))
        (not (tst (diff_of x y b) (width_carry b))) c live in
    (
      er,
      codes.0 ∙ ap (λ t. not (tst t (width_carry b))) total ∙ borrow_of x y b hx hy,
      codes.1 ∙ sub_overflow x y b r hx hy er,
      codes.2 ∙ result_zero r (x + span b - y) b er,
      codes.3 ∙ result_sign r (x + span b - y) b er,
    )
