-- ===== src/Prelude/Words.antt =====
-- The fixed-width integers of C, as numbers with their wrap-around written out.
use Prim.Native.Nat.{ℕ, ◌+◌, ◌-◌, ◌*◌, ◌/◌, ◌%◌, ◌^◌, bit_and, bit_xor}
use mathlib.Core.Bool.{Bool}
use emulator_pdp.Prelude.Tests.{◌==◌, if◌then◌else◌}

abbrev pub u8 : ℕ → ℕ
u8 n = n % 2 ^ 8

abbrev pub u16 : ℕ → ℕ
u16 n = n % 2 ^ 16

abbrev pub u32 : ℕ → ℕ
u32 n = n % 2 ^ 32

abbrev pub u64 : ℕ → ℕ
u64 n = n % 2 ^ 64

infixl 72 ◌<<<◌ ◌>>>◌
abbrev pub ◌<<<◌ : ℕ → ℕ → ℕ
x <<< k = x * 2 ^ k

abbrev pub ◌>>>◌ : ℕ → ℕ → ℕ
x >>> k = x / 2 ^ k

-- `a & ~b` of C, at every width.
abbrev pub and_not : ℕ → ℕ → ℕ
and_not a b = bit_xor a (bit_and a b)

-- A field of `k` bits from bit `i` up: `(x >> i) & (2^k - 1)`.
abbrev pub field : ℕ → ℕ → ℕ → ℕ
field x i k = x / 2 ^ i % 2 ^ k

-- `x - y` on `uint16_t` and `uint32_t`, for `y` within the width.
abbrev pub sub16 : ℕ → ℕ → ℕ
sub16 x y = (x + 2 ^ 16 - y) % 2 ^ 16

abbrev pub sub32 : ℕ → ℕ → ℕ
sub32 x y = (x + 2 ^ 32 - y) % 2 ^ 32

-- The 1 or 0 of a C condition.
abbrev pub bool_to_ℕ : Bool → ℕ
bool_to_ℕ b = if b then 1 else 0

-- One cell of an array that stands for itself as a function of the index.
abbrev pub update {ℓ} : {A : Type ℓ} → (ℕ → A) → ℕ → A → ℕ → A
update f i v = λ j. if i == j then v else f j
