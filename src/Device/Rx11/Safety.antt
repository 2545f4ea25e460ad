-- ===== src/Device/Rx11/Safety.antt =====
-- The register accesses of src/core/devices/rx11.c and the sector buffer.
use emulator_pdp.Prelude.{
  ℕ, bit_and, and_not, tst, u8, u16, Bool, true, false, refl, inl, inr, ◌==◌, ◌&&◌, ◌||◌, not,
  arith, if◌then◌else◌, Bool-cases,
}
use emulator_pdp.State.{Cpu, Rx11}
use emulator_pdp.Interrupt.{set_int, clr_int}
use emulator_pdp.Device.Rx11.{
  step, reset_state, read, launch, write_rxcs, write, func_of, st_idle, st_empty, st_cmddone,
  rxcs_tr,
}
use emulator_pdp.Device.Rx11.Bounds.{IsBounded, Keeps, step-Keeps}

abbrev launched : ℕ → Rx11 → Rx11
launched value d = record d { rxcs = u16 (bit_and value 0o136); bptr = 0 }

-- READ, WRITE and WRITE DELETED.
abbrev moves : ℕ → Bool
moves f = f == 3 || f == 2 || f == 6

launch-Keeps : (value : ℕ) (c : Cpu) → Keeps c (launch value c)
unfolding launch
launch-Keeps value c = elim (Bool-cases (func_of (launched value c.rx) == 0)) [
  | inl e ↦ rw e ((omega arith, inr (omega arith)), λ i far. refl)
  | inr a ↦ elim (Bool-cases (func_of (launched value c.rx) == 1)) [
    | inl e ↦
        rw (a, e)
          (step-Keeps (record c { rx = record (launched value c.rx) { state = st_empty } })
            (omega arith, inl refl))
    | inr b ↦ elim (Bool-cases (moves (func_of (launched value c.rx)))) [
      | inl e ↦ rw (a, b, e) ((omega arith, inl refl), λ i far. refl)
      | inr d ↦
          rw (a, b, d)
            (step-Keeps (record c { rx = record (launched value c.rx) { state = st_cmddone } })
              (omega arith, inl refl))
    ]
  ]
]

write_rxcs-Keeps : (value : ℕ) (c : Cpu) → IsBounded c → Keeps c (write_rxcs value c)
unfolding write_rxcs reset_state clr_int set_int
write_rxcs-Keeps value c h = elim (Bool-cases (tst value 0o40000)) [
  | inl e ↦ rw e ((omega arith, inl refl), λ i far. refl)
  | inr a ↦ elim (Bool-cases (tst value 0o1 && c.rx.state == st_idle)) [
    | inl e ↦ rw (a, e) (launch-Keeps value c)
    | inr b ↦ rw (a, b) (h, λ i far. refl)
  ]
]

either-Keeps : (b : Bool) (c x y : Cpu) → Keeps c x → Keeps c y → Keeps c (if b then x else y)
either-Keeps true c x y hx hy = hx
either-Keeps false c x y hx hy = hy

-- The machine as a write of RXDB hands its byte over.
abbrev delivered : ℕ → Cpu → Cpu
delivered value c = record c { rx = record c.rx { rxdb = u8 (bit_and value 0o377) } }

abbrev stored : ℕ → Cpu → Cpu
stored value c =
    let d = (delivered value c).rx in record c { rx = record d { rxcs = and_not d.rxcs rxcs_tr } }

-- If the buffer index of the RX11 is at most 128, and below 128 in a fill, then so it is after
-- any write to any of its registers, and no byte beyond the 128 of the sector buffer changes.
pub write-IsBounded : (addr value : ℕ) (c : Cpu) → IsBounded c → Keeps c (write addr value c)
unfolding write
write-IsBounded addr value c h = elim (Bool-cases (addr == 0o177170)) [
  | inl e ↦ rw e (write_rxcs-Keeps value c h)
  | inr a ↦ elim (Bool-cases (not (c.rx.state == st_idle) && tst c.rx.rxcs rxcs_tr)) [
    | inl e ↦
        rw (a, e)
          (either-Keeps (c.rx.state == st_empty) c (delivered value c) (step (stored value c))
            (h, λ i far. refl) (step-Keeps (stored value c) h))
    | inr b ↦ rw (a, b) (h, λ i far. refl)
  ]
]

-- If the buffer index of the RX11 is at most 128, and below 128 in a fill, then so it is after a
-- read of any of its registers, which may step through the buffer, and no byte beyond the 128 of
-- the sector buffer changes.
pub read-IsBounded : (addr : ℕ) (c : Cpu) → IsBounded c → Keeps c (read addr c).1
unfolding read
read-IsBounded addr c h = elim (Bool-cases (addr == 0o177170)) [
  | inl e ↦ rw e (h, λ i far. refl)
  | inr a ↦ elim (Bool-cases (c.rx.state == st_empty && tst c.rx.rxcs rxcs_tr)) [
    | inl e ↦
        rw (a, e)
          (step-Keeps (record c { rx = record c.rx { rxcs = and_not c.rx.rxcs rxcs_tr } }) h)
    | inr b ↦ rw (a, b) (h, λ i far. refl)
  ]
]
