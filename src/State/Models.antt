-- ===== src/State/Models.antt =====
-- `pdp11_model` and `pdp11_model_info` of src/core/cpu/cpu.h.
use emulator_pdp.Prelude.{ℕ, Bool, ◌==◌}

pub data Model : Type 0 where
  m1103 m1104 m1105 m1120 m1123 m1123p m1124 m1134 m1140 m1144 : Model
  m1145 m1153 m1160 m1170 m1173 m1173b m1183 m1184 m1193 m1194 : Model

-- The value of the enumeration.
abbrev code : Model → ℕ
code m1103 = 0
code m1104 = 1
code m1105 = 2
code m1120 = 3
code m1123 = 4
code m1123p = 5
code m1124 = 6
code m1134 = 7
code m1140 = 8
code m1144 = 9
code m1145 = 10
code m1153 = 11
code m1160 = 12
code m1170 = 13
code m1173 = 14
code m1173b = 15
code m1183 = 16
code m1184 = 17
code m1193 = 18
code m1194 = 19

abbrev pub model_eq : Model → Model → Bool
model_eq a b = code a == code b

-- The name of the model is not kept: no code reads it.
pub record ModelInfo : Type 0 where
  pub has_eis : Bool
  pub has_fpp : Bool
  pub has_mmu : Bool
  pub has_ubm : Bool
  pub has_sxs : Bool
  pub has_mark : Bool
  pub has_rtt : Bool
  pub has_spl : Bool
  pub mfpt_code : ℕ
  pub max_mem : ℕ
  pub psw_mask : ℕ
  pub mmr0_mask : ℕ
  pub mmr3_mask : ℕ
  pub par_mask : ℕ
  pub pdr_mask : ℕ
