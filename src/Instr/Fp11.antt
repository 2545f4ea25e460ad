-- ===== src/Instr/Fp11.antt =====
-- src/core/cpu/cpu.c: the FP11-C instructions.
pub mod Operands
pub mod Codes
pub mod Control
pub mod Arith
pub mod Conversion
pub mod Dispatch
