-- ===== src/Device/Rk11/Registers.antt =====
-- The phases of the controller over the register writes and polls of src/core/devices/rk11.c.
use emulator_pdp.Prelude.{
  ℕ, bit_and, bit_or, and_not, tst, u16, Bool, true, false, ◌≡◌, refl, ap, ◌∙◌, sym, inl, inr, leb,
  ◌==◌, ◌&&◌, not, if◌then◌else◌, Bool-cases,
}
use emulator_pdp.State.{Cpu, Rk11}
use emulator_pdp.Bits.{bit_and-u16, merge-other, bit_and_assoc}
use emulator_pdp.Interrupt.{set_int, clr_int, int_rk}
use emulator_pdp.Device.Rk11.{go, poll, write_rkcs, write, rkcs_done, rkcs_rw, rkcs_real, rkcs_ie}
use emulator_pdp.Device.Rk11.Phases.{ready, IsPhased, go-IsPhased, finish-IsPhased}

-- RKCS as a write leaves it, and the controller with it.
abbrev merged : ℕ → Rk11 → Rk11
merged value d0 =
    let d = record d0 { rkcs = bit_and d0.rkcs rkcs_real } in
    record d { rkcs = u16 (bit_or (and_not d.rkcs rkcs_rw) (bit_and value rkcs_rw)) }

merged-IsPhased : (value : ℕ) (d : Rk11) → IsPhased d → IsPhased (merged value d)
merged-IsPhased value d h =
    let kept : bit_and (merged value d).rkcs rkcs_done ≡ bit_and d.rkcs rkcs_done =
      bit_and-u16 _ rkcs_done refl
      ∙ merge-other (bit_and d.rkcs rkcs_real) value rkcs_rw rkcs_done refl
      ∙ bit_and_assoc d.rkcs rkcs_real rkcs_done in
    h ∙ ap (λ t. not (not (t == 0))) (sym kept)

go_or-IsPhased : (b : Bool) (c : Cpu) → IsPhased c.rk → IsPhased (if b then go c else c).rk
go_or-IsPhased true c h = go-IsPhased c
go_or-IsPhased false c h = h

write_rkcs-IsPhased : (value : ℕ) (c : Cpu) → IsPhased c.rk → IsPhased (write_rkcs value c).rk
unfolding write_rkcs
write_rkcs-IsPhased value c h =
    let d = record c.rk { rkcs = bit_and c.rk.rkcs rkcs_real } in
    let c1 = record c { rk = d } in
    let c2 =
      if not (tst value rkcs_ie)
      then clr_int int_rk c1
      else if bit_and d.rkcs (bit_or rkcs_done rkcs_ie) == rkcs_done
      then set_int int_rk c1
      else c1 in
    let c3 = record c2 { rk = merged value c.rk } in
    go_or-IsPhased (tst c3.rk.rkcs rkcs_done && tst value 1) c3 (merged-IsPhased value c.rk h)

-- If the RK11 is busy exactly while DONE is clear, then so it is after any write to any of its
-- registers, whether the write starts a transfer, a command that fails at once, or none.
pub write-IsPhased : (addr value : ℕ) (c : Cpu) → IsPhased c.rk → IsPhased (write addr value c).rk
unfolding write
write-IsPhased addr value c h = elim (Bool-cases (addr == 0o177404)) [
  | inl e ↦ rw e (write_rkcs-IsPhased value c h)
  | inr a ↦ elim (Bool-cases (addr == 0o177406)) [
    | inl e ↦ rw (a, e) h
    | inr b ↦ elim (Bool-cases (addr == 0o177410)) [
      | inl e ↦ rw (a, b, e) h
      | inr d ↦ elim (Bool-cases (addr == 0o177412)) [
        | inl e ↦ elim (Bool-cases (ready c.rk)) [
          | inl f ↦ rw (a, b, d, e, f) h
          | inr f ↦ rw (a, b, d, e, f) h
        ]
        | inr e ↦ rw (a, b, d, e) h
      ]
    ]
  ]
]

-- If the RK11 is busy exactly while DONE is clear, then so it is after a poll, whether the poll
-- ends a command or comes too early.
pub poll-IsPhased : (c : Cpu) → IsPhased c.rk → IsPhased (poll c).rk
unfolding poll
poll-IsPhased c h = elim (Bool-cases (c.rk.busy && leb c.rk.done_ns c.time_ns)) [
  | inl due ↦ rw due (finish-IsPhased c)
  | inr e ↦ rw e h
]
