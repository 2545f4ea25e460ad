-- ===== src/State/Devices.antt =====
-- The structures that `pdp11_cpu` holds: the cache, the controllers, and the configuration.
use emulator_pdp.Prelude.{ℕ, Bool, Option}
use emulator_pdp.State.Models.{Model}

-- src/core/cache/cache.h, each array by set and way.
pub record Cache : Type 0 where
  pub tag : ℕ → ℕ → ℕ
  pub valid : ℕ → ℕ → Bool
  pub victim : ℕ → ℕ
  pub misses : ℕ

-- src/core/devices/rk11.h.
pub record Rk11 : Type 0 where
  pub rkcs : ℕ
  pub rker : ℕ
  pub rkwc : ℕ
  pub rkba : ℕ
  pub rkda : ℕ
  pub rkds : ℕ
  pub disk : Option (ℕ → ℕ)
  pub disk_words : ℕ
  pub busy : Bool
  pub done_ns : ℕ

-- src/core/devices/rp11.h.
pub record Rp11 : Type 0 where
  pub cs1 : ℕ
  pub wc : ℕ
  pub ba : ℕ
  pub cs2 : ℕ
  pub bae : ℕ
  pub da : ℕ
  pub dc : ℕ
  pub cc : ℕ
  pub ds : ℕ
  pub er1 : ℕ
  pub disk : Option (ℕ → ℕ)
  pub disk_words : ℕ
  pub busy : Bool
  pub done_ns : ℕ

-- src/core/devices/tm11.h.
pub record Tm11 : Type 0 where
  pub sta : ℕ
  pub cmd : ℕ
  pub bc : ℕ
  pub ca : ℕ
  pub db : ℕ
  pub rdl : ℕ
  pub tape : Option (ℕ → ℕ)
  pub tape_len : ℕ
  pub pos : ℕ
  pub wrp : Bool
  pub busy : Bool
  pub done_ns : ℕ

-- src/core/devices/rl11.h.
pub record Rl11 : Type 0 where
  pub rlcs : ℕ
  pub rlba : ℕ
  pub rlda : ℕ
  pub rlmp : ℕ
  pub rlbae : ℕ
  pub trk : ℕ
  pub disk : Option (ℕ → ℕ)
  pub disk_words : ℕ
  pub busy : Bool
  pub done_ns : ℕ

-- src/core/devices/rx11.h.
pub record Rx11 : Type 0 where
  pub rxcs : ℕ
  pub rxdb : ℕ
  pub rxes : ℕ
  pub ecode : ℕ
  pub track : ℕ
  pub sector : ℕ
  pub state : ℕ
  pub bptr : ℕ
  pub cur_track : ℕ
  pub buf : ℕ → ℕ
  pub disk : Option (ℕ → ℕ)
  pub disk_bytes : ℕ

-- The fields of `pdp11_cpu` that `pdp11_cpu_create_model` sets and nothing else writes.
pub record Config : Type 0 where
  pub model : Model
  pub has_eis : Bool
  pub has_fpp : Bool
  pub has_mmu : Bool
  pub has_ubm : Bool
  pub has_sxs : Bool
  pub has_mark : Bool
  pub has_rtt : Bool
  pub has_spl : Bool
  pub has_expt : Bool
  pub has_stklr : Bool
  pub has_stklf : Bool
  pub mfpt_code : ℕ
  pub psw_mask : ℕ
  pub mmr0_mask : ℕ
  pub mmr3_mask : ℕ
  pub par_mask : ℕ
  pub pdr_mask : ℕ
  pub mem_top : ℕ
