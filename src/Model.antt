-- ===== src/Model.antt =====
-- src/core/cpu/cpu.c: the table of models, and how a machine is made and reset.
use emulator_pdp.Prelude.{
  ℕ, ◌/◌, bit_or, ltb, ◌||◌, ◌&&◌, not, if◌then◌else◌, Bool, true, false, Option, none, some, [],
}
use emulator_pdp.State.{
  Model, ModelInfo, Config, Cpu, Rk11, Rp11, Tm11, Rl11, Rx11, model_eq, m1103, m1104, m1105, m1120,
  m1123, m1123p, m1124, m1134, m1140, m1144, m1145, m1153, m1160, m1170, m1173, m1173b, m1183,
  m1184, m1193, m1194,
}
use emulator_pdp.Cache

abbrev pub mem_64k : ℕ
mem_64k = 0o200000

abbrev pub mem_256k : ℕ
mem_256k = 0o1000000

abbrev pub mem_4m : ℕ
mem_4m = 0o20000000

-- A machine with 16-bit addresses and no management.
abbrev small : Bool → Bool → Bool → ModelInfo
small sxs mark rtt = record {
  has_eis = false;
  has_fpp = false;
  has_mmu = false;
  has_ubm = false;
  has_sxs = sxs;
  has_mark = mark;
  has_rtt = rtt;
  has_spl = false;
  mfpt_code = 0;
  max_mem = mem_64k;
  psw_mask = 0o377;
  mmr0_mask = 0;
  mmr3_mask = 0;
  par_mask = 0;
  pdr_mask = 0;
}

-- A machine with management: the columns of the table that differ.
abbrev managed : Bool → Bool → Bool → ℕ → ℕ → ℕ → ℕ → ℕ → ℕ → ℕ → ModelInfo
managed fpp ubm spl mfpt mem psw mm0 mm3 apar apdr = record {
  has_eis = true;
  has_fpp = fpp;
  has_mmu = true;
  has_ubm = ubm;
  has_sxs = true;
  has_mark = true;
  has_rtt = true;
  has_spl = spl;
  mfpt_code = mfpt;
  max_mem = mem;
  psw_mask = psw;
  mmr0_mask = mm0;
  mmr3_mask = mm3;
  par_mask = apar;
  pdr_mask = apdr;
}

abbrev f_class : Bool → ModelInfo
f_class ubm = managed true ubm false 3 mem_4m 0o170777 0o160157 0o60 0o177777 0o77516

abbrev j_class : ModelInfo
j_class = managed true false true 5 mem_4m 0o174777 0o160177 0o77 0o177777 0o177516

unfoldable pub model_lookup : Model → ModelInfo
model_lookup m1103 = small true true true
model_lookup m1104 = small false false true
model_lookup m1105 = small false false false
model_lookup m1120 = small false false false
model_lookup m1123 = f_class false
model_lookup m1123p = f_class false
model_lookup m1124 = f_class true
model_lookup m1134 = managed false false false 0 mem_256k 0o170377 0o160557 0 0o7777 0o77516
model_lookup m1140 = managed false false false 0 mem_256k 0o170377 0o160557 0 0o7777 0o77516
model_lookup m1144 = managed true true true 1 mem_4m 0o170777 0o160557 0o77 0o177777 0o177516
model_lookup m1145 = managed true false true 0 mem_256k 0o174377 0o171777 0o7 0o7777 0o77717
model_lookup m1153 = j_class
model_lookup m1160 = managed true false false 0 mem_256k 0o170377 0o160557 0 0o7777 0o77516
model_lookup m1170 = managed true true true 0 mem_4m 0o174377 0o171777 0o67 0o177777 0o77717
model_lookup m1173 = j_class
model_lookup m1173b = j_class
model_lookup m1183 = j_class
model_lookup m1184 = j_class
model_lookup m1193 = j_class
model_lookup m1194 = j_class

unfoldable pub config_of : Model → Config
unfolding model_lookup
config_of m =
    let info = model_lookup m in
    let stklr = model_eq m m1145 || (model_eq m m1160 || model_eq m m1170) in
    record {
      model = m;
      has_eis = info.has_eis;
      has_fpp = info.has_fpp;
      has_mmu = info.has_mmu;
      has_ubm = info.has_ubm;
      has_sxs = info.has_sxs;
      has_mark = info.has_mark;
      has_rtt = info.has_rtt;
      has_spl = info.has_spl;
      has_expt = model_eq m m1104 || (model_eq m m1105 || model_eq m m1120);
      has_stklr = stklr;
      has_stklf = not stklr && not (model_eq m m1103);
      mfpt_code = info.mfpt_code;
      psw_mask = info.psw_mask;
      mmr0_mask = info.mmr0_mask;
      mmr3_mask = info.mmr3_mask;
      par_mask = info.par_mask;
      pdr_mask = info.pdr_mask;
      mem_top = if ltb info.max_mem 0o1000000 then info.max_mem else 0o1000000;
    }

abbrev pub is_attached : Option (ℕ → ℕ) → Bool
is_attached none = false
is_attached (some d) = true

-- The controllers' part of `pdp11_cpu_reset`; what is attached stays.
reset_rk : Rk11 → Rk11
reset_rk d = record d {
  rkcs = 0o200;
  rker = 0;
  rkwc = 0;
  rkba = 0;
  rkda = 0;
  rkds = 0;
  busy = false;
}

reset_rp : Rp11 → Rp11
reset_rp d = record d {
  cs1 = 0o200;
  wc = 0;
  ba = 0;
  cs2 = 0;
  bae = 0;
  da = 0;
  dc = 0;
  cc = 0;
  ds = 0;
  er1 = 0;
  busy = false;
}

reset_tm : Tm11 → Tm11
reset_tm d = record d { cmd = 0o200; sta = 0; bc = 0; ca = 0; db = 0; rdl = 0; busy = false }

reset_rl : Rl11 → Rl11
reset_rl d = record d {
  rlcs = 0o200;
  rlba = 0;
  rlda = 0;
  rlmp = 0;
  rlbae = 0;
  trk = 0;
  busy = false;
}

reset_rx : Rx11 → Rx11
reset_rx d =
    let att = is_attached d.disk in
    let es : ℕ = if att then bit_or 0o4 0o200 else 0 in
    record d {
      rxes = es;
      ecode = if att then 0 else 0o10;
      rxcs = bit_or 0o40 (if att then 0 else 0o100000);
      rxdb = es;
      track = 0;
      sector = 0;
      state = 0;
      bptr = 0;
      cur_track = 0;
    }

unfoldable pub cpu_reset : Cpu → Cpu
unfolding reset_rk reset_rp reset_tm reset_rl reset_rx Cache.reset
cpu_reset c = record c {
  r = λ i. 0;
  psw = 0;
  halted = false;
  waiting = false;
  trace_pending = false;
  stack_yellow_pending = false;
  in_trap_push = false;
  servicing_stack_trap = false;
  pirq = 0;
  abort_depth = 0;
  mmr0 = 0;
  mmr3 = 0;
  mmr1 = 0;
  mmr2 = 0;
  sr = 0;
  dr = 0;
  memerr = 0;
  ccr = 0;
  hitmiss = 0;
  cpuerr = 0;
  mbrk = 0;
  stklim = 0;
  ub_map = λ i. 0;
  par = λ i. 0;
  pdr = λ i. 0;
  regfile = λ i s. 0;
  stackfile = λ i. 0;
  fac = λ i. 0;
  fps = 0;
  fec = 0;
  fea = 0;
  instr_count = 0;
  time_ns = 0;
  int_req = 0;
  clk_csr = 0o200;
  clk_tick_ns = 1000000000 / 60;
  clk_next_ns = 1000000000 / 60;
  tti_csr = 0;
  tti_buf = 0;
  tto_csr = 0o200;
  tto_buf = 0;
  tto_busy = false;
  rk = reset_rk c.rk;
  rp = reset_rp c.rp;
  tm = reset_tm c.tm;
  rl = reset_rl c.rl;
  rx = reset_rx c.rx;
  cache = Cache.reset;
}

-- The zeroed memory of `calloc`, configured.
blank : Config → Cpu
unfolding Cache.reset
blank cfg = record {
  cfg = cfg;
  r = λ i. 0;
  psw = 0;
  halted = false;
  waiting = false;
  trace_pending = false;
  stack_yellow_pending = false;
  in_trap_push = false;
  servicing_stack_trap = false;
  cc_frozen = false;
  pirq = 0;
  int_req = 0;
  clk_csr = 0;
  clk_tick_ns = 0;
  clk_next_ns = 0;
  tti_csr = 0;
  tti_buf = 0;
  tto_csr = 0;
  tto_buf = 0;
  tto_busy = false;
  tto_done_ns = 0;
  has_sink = false;
  printed = [];
  rk = record {
    rkcs = 0;
    rker = 0;
    rkwc = 0;
    rkba = 0;
    rkda = 0;
    rkds = 0;
    disk = none;
    disk_words = 0;
    busy = false;
    done_ns = 0;
  };
  rp = record {
    cs1 = 0;
    wc = 0;
    ba = 0;
    cs2 = 0;
    bae = 0;
    da = 0;
    dc = 0;
    cc = 0;
    ds = 0;
    er1 = 0;
    disk = none;
    disk_words = 0;
    busy = false;
    done_ns = 0;
  };
  tm = record {
    sta = 0;
    cmd = 0;
    bc = 0;
    ca = 0;
    db = 0;
    rdl = 0;
    tape = none;
    tape_len = 0;
    pos = 0;
    wrp = false;
    busy = false;
    done_ns = 0;
  };
  rl = record {
    rlcs = 0;
    rlba = 0;
    rlda = 0;
    rlmp = 0;
    rlbae = 0;
    trk = 0;
    disk = none;
    disk_words = 0;
    busy = false;
    done_ns = 0;
  };
  rx = record {
    rxcs = 0;
    rxdb = 0;
    rxes = 0;
    ecode = 0;
    track = 0;
    sector = 0;
    state = 0;
    bptr = 0;
    cur_track = 0;
    buf = λ i. 0;
    disk = none;
    disk_bytes = 0;
  };
  mmr0 = 0;
  mmr3 = 0;
  mmr1 = 0;
  mmr2 = 0;
  par = λ i. 0;
  pdr = λ i. 0;
  sr = 0;
  dr = 0;
  memerr = 0;
  ccr = 0;
  hitmiss = 0;
  cpuerr = 0;
  mbrk = 0;
  stklim = 0;
  regfile = λ i s. 0;
  stackfile = λ i. 0;
  fac = λ i. 0;
  fps = 0;
  fec = 0;
  fea = 0;
  abort_vec = 0;
  abort_depth = 0;
  instr_count = 0;
  time_ns = 0;
  eis_extra_ns = 0;
  cache = Cache.reset;
  mem = λ i. 0;
  ub_map = λ i. 0;
}

-- `pdp11_cpu_create_model` where memory can be had. The enumeration has no value out of range.
unfoldable pub cpu_create_model : Model → Cpu
unfolding config_of blank cpu_reset
cpu_create_model m = cpu_reset (blank (config_of m))

unfoldable pub cpu_create : Cpu
unfolding cpu_create_model
cpu_create = cpu_create_model m1170
