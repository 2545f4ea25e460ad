-- ===== src/Instr.antt =====
-- src/core/cpu/cpu.c: the instructions, by group.
pub mod Double
pub mod Single
pub mod Flow
pub mod Trap
pub mod Eis
pub mod Mode
pub mod Misc
pub mod Fp11
