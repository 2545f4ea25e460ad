-- ===== src/Fp.antt =====
-- src/core/fp: the arithmetic of the FP11-C.
pub mod Fraction
pub mod Round
pub mod Normal
pub mod Add
pub mod Mul
pub mod Div
pub mod Convert
pub mod Api
