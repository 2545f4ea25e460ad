-- ===== src/Bits.antt =====
-- Laws of `&`, `|`, `^` and `& ~` at variables, bit by bit and at every width.
mod Step
mod Core
mod Laws
mod Sums
pub use Core.{
  bit, bit-lt, bit-bit_and, bit-bit_or, bit-bit_xor, bit-and_not, bit-zero, bit_ext, bit-7, bit-15,
}
pub use Laws.*
pub use Sums.*
