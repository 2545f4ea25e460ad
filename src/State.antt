-- ===== src/State.antt =====
-- src/core/cpu/cpu.h and the device headers: the state of the machine. A C array stands as a function
-- of its index, and a buffer that may be NULL as an `Option`. `jmp_buf` is not state here: an
-- abort is a result of the model (Monad.antt).
mod Devices
mod Models
pub use Devices.{Cache, Rk11, Rp11, Tm11, Rl11, Rx11, Config}
pub use Models.{Model, model_eq, ModelInfo}
pub use Models.{
  m1103, m1104, m1105, m1120, m1123, m1123p, m1124, m1134, m1140, m1144, m1145, m1153, m1160, m1170,
  m1173, m1173b, m1183, m1184, m1193, m1194,
}
use emulator_pdp.Prelude.{ℕ, Bool, List}

-- `mem_top` and the cached capability flags stand in `cfg`: they are set when the machine is made.
-- `printed` lists what the console sink was called with, the last character first.
pub record Cpu : Type 0 where
  pub cfg : Config
  pub r : ℕ → ℕ
  pub psw : ℕ
  pub halted : Bool
  pub waiting : Bool
  pub trace_pending : Bool
  pub stack_yellow_pending : Bool
  pub in_trap_push : Bool
  pub servicing_stack_trap : Bool
  pub cc_frozen : Bool
  pub pirq : ℕ
  pub int_req : ℕ
  pub clk_csr : ℕ
  pub clk_tick_ns : ℕ
  pub clk_next_ns : ℕ
  pub tti_csr : ℕ
  pub tti_buf : ℕ
  pub tto_csr : ℕ
  pub tto_buf : ℕ
  pub tto_busy : Bool
  pub tto_done_ns : ℕ
  pub has_sink : Bool
  pub printed : List ℕ
  pub rk : Rk11
  pub rp : Rp11
  pub tm : Tm11
  pub rl : Rl11
  pub rx : Rx11
  pub mmr0 : ℕ
  pub mmr3 : ℕ
  pub mmr1 : ℕ
  pub mmr2 : ℕ
  pub par : ℕ → ℕ
  pub pdr : ℕ → ℕ
  pub sr : ℕ
  pub dr : ℕ
  pub memerr : ℕ
  pub ccr : ℕ
  pub hitmiss : ℕ
  pub cpuerr : ℕ
  pub mbrk : ℕ
  pub stklim : ℕ
  pub regfile : ℕ → ℕ → ℕ
  pub stackfile : ℕ → ℕ
  pub fac : ℕ → ℕ
  pub fps : ℕ
  pub fec : ℕ
  pub fea : ℕ
  pub abort_vec : ℕ
  pub abort_depth : ℕ
  pub instr_count : ℕ
  pub time_ns : ℕ
  pub eis_extra_ns : ℕ
  pub cache : Cache
  pub mem : ℕ → ℕ
  pub ub_map : ℕ → ℕ
