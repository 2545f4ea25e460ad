-- ===== src/Device/Rx11/Bounds.antt =====
-- `rx_step` of src/core/devices/rx11.c and the 128 bytes of the sector buffer.
use emulator_pdp.Prelude.{
  ℕ, ◌+◌, ◌≤◌, ◌<◌, bit_and, bit_or, tst, Bool, true, false, ◌≡◌, refl, ◌⊎◌, inl, inr, leb, ltb,
  ◌==◌, ◌||◌, ◌∙◌, ap, arith, if◌then◌else◌, Bool-cases, Option, none, some, update, u8,
}
use emulator_pdp.State.{Cpu, Rx11}
use emulator_pdp.Model.{is_attached}
use emulator_pdp.Interrupt.{set_int}
use emulator_pdp.Device.Rx11.{
  complete, transfer, empty_step, fill_step, step, rxcs_tr, st_rwds, st_rwdt, st_rwxfr, st_cmddone,
  rx_numtr, rx_numsc, load_sector, store_sector, func_of, rx_numby, st_idle, st_fill, st_empty,
  rxcs_done, rxcs_ie,
}

-- The buffer index is at most 128, and below it while a FILL has a byte to store.
abbrev pub IsBounded : Cpu → Type 0
IsBounded c = (c.rx.bptr ≤ rx_numby) × (((c.rx.state == st_fill) ≡ false) ⊎ (c.rx.bptr < rx_numby))

-- The end of a command: idle, with the index and the buffer as they were.
pub complete-facts :
    (es : ℕ) (e : Option ℕ) (c : Cpu)
    → ((complete es e c).rx.state ≡ st_idle)
      × ((complete es e c).rx.bptr ≡ c.rx.bptr)
      × ((complete es e c).rx.buf ≡ c.rx.buf)
unfolding complete set_int
complete-facts es none c = elim (Bool-cases (tst (bit_or c.rx.rxcs rxcs_done) rxcs_ie)) [
  | inl on ↦ rw on (refl, refl, refl)
  | inr off ↦ rw off (refl, refl, refl)
]
complete-facts es (some e) c = elim (Bool-cases (tst (bit_or c.rx.rxcs rxcs_done) rxcs_ie)) [
  | inl on ↦ rw on (refl, refl, refl)
  | inr off ↦ rw off (refl, refl, refl)
]

-- `c'` comes from `c` inside the buffer: the bound holds, and no byte beyond the buffer changed.
abbrev pub Keeps : Cpu → Cpu → Type 0
Keeps c c' = IsBounded c' × ((i : ℕ) → rx_numby ≤ i → c'.rx.buf i ≡ c.rx.buf i)

complete-Keeps :
    (es : ℕ) (e : Option ℕ) (c : Cpu) → c.rx.bptr ≤ rx_numby → Keeps c (complete es e c)
complete-Keeps es e c h =
    let f = complete-facts es e c in (rw (f.0, f.1) (h, inl refl), λ i far. rw f.2 refl)

-- The same where the command changed the controller to `d` first.
abbrev IsNear : Cpu → Rx11 → Type 0
IsNear c d = (d.bptr ≤ rx_numby) × ((i : ℕ) → rx_numby ≤ i → d.buf i ≡ c.rx.buf i)

complete-Keeps_near :
    (es : ℕ) (e : Option ℕ) (c : Cpu) (d : Rx11)
    → IsNear c d
    → Keeps c (complete es e (record c { rx = d }))
complete-Keeps_near es e c d near =
    let f = complete-facts es e (record c { rx = d }) in
    (rw (f.0, f.1) (near.0, inl refl), λ i far. ap (λ (b : ℕ → ℕ). b i) f.2 ∙ near.1 i far)

empty_step-Keeps :
    (c : Cpu) → c.rx.bptr ≤ rx_numby → (c.rx.state == st_fill) ≡ false → Keeps c (empty_step c)
unfolding empty_step
empty_step-Keeps c h idle = elim (Bool-cases (leb rx_numby c.rx.bptr)) [
  | inl full ↦ rw full (complete-Keeps 0 (some 0) c h)
  | inr more ↦ rw more ((ground arith, inl idle), λ i far. refl)
]

-- The controller between the store of a byte and the test of `fill_step`.
abbrev filled : Rx11 → Rx11
filled d = record d { buf = update d.buf d.bptr d.rxdb; bptr = u8 (d.bptr + 1) }

filled-IsNear : (c : Cpu) → c.rx.bptr < rx_numby → IsNear c (filled c.rx)
filled-IsNear c h = (ground arith, λ i far. ground arith)

fill_step-Keeps : (c : Cpu) → c.rx.bptr < rx_numby → Keeps c (fill_step c)
unfolding fill_step
fill_step-Keeps c h = elim (Bool-cases (ltb (u8 (c.rx.bptr + 1)) rx_numby)) [
  | inl more ↦ rw more ((ground arith, inr (ground arith)), λ i far. ground arith)
  | inr full ↦ rw full (complete-Keeps_near 0 (some 0) c (filled c.rx) (filled-IsNear c h))
]

-- The controller at the sector transfer, `deleted` for a write of deleted data.
abbrev marked : Bool → Rx11 → Rx11
marked deleted d0 =
    let d = record d0 { cur_track = d0.track } in
    if deleted then record d { rxes = bit_or d.rxes 0o100 } else d

abbrev moved : Bool → Rx11 → Rx11
moved is_read d = if is_read then load_sector d else store_sector d

moved-IsNear : (is_read : Bool) (c : Cpu) (d : Rx11) → IsNear c d → IsNear c (moved is_read d)
moved-IsNear true c d near = (near.0, λ i far. ground (arith, near.1 i))
moved-IsNear false c d near = near

marked-IsNear : (deleted : Bool) (c : Cpu) → c.rx.bptr ≤ rx_numby → IsNear c (marked deleted c.rx)
marked-IsNear true c h = (h, λ i far. refl)
marked-IsNear false c h = (h, λ i far. refl)

transfer-Keeps : (c : Cpu) → c.rx.bptr ≤ rx_numby → Keeps c (transfer c)
unfolding transfer
transfer-Keeps c h = elim (Bool-cases (is_attached c.rx.disk)) [
  | inr absent ↦ rw absent (complete-Keeps 0 (some 0o110) c h)
  | inl there ↦ elim (Bool-cases (leb rx_numtr c.rx.track)) [
    | inl beyond ↦ rw (there, beyond) (complete-Keeps 0 (some 0o40) c h)
    | inr track ↦ elim (Bool-cases (c.rx.sector == 0 || ltb rx_numsc c.rx.sector)) [
      | inl wrong ↦
          rw (there, track, wrong)
            (complete-Keeps_near 0 (some 0o70) c (record c.rx { cur_track = c.rx.track })
              (marked-IsNear false c h))
      | inr sector ↦
          rw (there, track, sector)
            (complete-Keeps_near 0 (some 0) c
              (moved (func_of c.rx == 3) (marked (func_of c.rx == 6) c.rx))
              (moved-IsNear (func_of c.rx == 3) c (marked (func_of c.rx == 6) c.rx)
                (marked-IsNear (func_of c.rx == 6) c h)))
    ]
  ]
]

-- The cases of `step` other than EMPTY and FILL.
abbrev ending : Cpu → Cpu
ending c =
    if c.rx.state == st_cmddone
    then if func_of c.rx == 7
      then complete 0 none (record c { rx = record c.rx { rxdb = c.rx.ecode } })
      else complete 0 (some 0) c
    else c

abbrev rest_of_step : Cpu → Cpu
rest_of_step c =
    if c.rx.state == st_rwds
    then record c {
      rx = record c.rx {
        sector = u8 (bit_and c.rx.rxdb 0o177);
        rxcs = bit_or c.rx.rxcs rxcs_tr;
        state = st_rwdt;
      };
    }
    else if c.rx.state == st_rwdt
    then transfer (record c { rx = record c.rx { track = c.rx.rxdb; state = st_rwxfr } })
    else if c.rx.state == st_rwxfr
    then transfer c
    else ending c

done_Keeps : (c : Cpu) → IsBounded c → Keeps c (ending c)
done_Keeps c h = elim (Bool-cases (c.rx.state == st_cmddone)) [
  | inl e ↦ elim (Bool-cases (func_of c.rx == 7)) [
    | inl status ↦
        rw (e, status)
          (complete-Keeps_near 0 none c (record c.rx { rxdb = c.rx.ecode }) (h.0, λ i far. refl))
    | inr other ↦ rw (e, other) (complete-Keeps 0 (some 0) c h.0)
  ]
  | inr e ↦ rw e (h, λ i far. refl)
]

pub step-Keeps : (c : Cpu) → IsBounded c → Keeps c (step c)
unfolding step
step-Keeps c h = elim (Bool-cases (c.rx.state == st_empty)) [
  | inl e ↦ rw e (empty_step-Keeps c h.0 (ground arith))
  | inr not_empty ↦ elim (Bool-cases (c.rx.state == st_fill)) [
    | inl e ↦ rw (not_empty, e) (fill_step-Keeps c (ground (arith, h.1)))
    | inr not_fill ↦ rw (not_empty, not_fill) (step_rest c h not_fill)
  ]
]
  where
    step_rest : (c : Cpu) → IsBounded c → (c.rx.state == st_fill) ≡ false → Keeps c (rest_of_step c)
    step_rest c h not_fill = elim (Bool-cases (c.rx.state == st_rwds)) [
      | inl e ↦ rw e ((h.0, inl refl), λ i far. refl)
      | inr no_ds ↦ elim (Bool-cases (c.rx.state == st_rwdt)) [
        | inl e ↦
            rw (no_ds, e)
              (transfer-Keeps
                (record c { rx = record c.rx { track = c.rx.rxdb; state = st_rwxfr } }) h.0)
        | inr no_dt ↦ elim (Bool-cases (c.rx.state == st_rwxfr)) [
          | inl e ↦ rw (no_ds, no_dt, e) (transfer-Keeps c h.0)
          | inr no_xfr ↦ rw (no_ds, no_dt, no_xfr) (done_Keeps c h)
        ]
      ]
    ]
