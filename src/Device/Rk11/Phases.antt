-- ===== src/Device/Rk11/Phases.antt =====
-- The commands of src/core/devices/rk11.c, and the two phases of the controller: busy and ready.
use emulator_pdp.Prelude.{
  ℕ, zero, suc, ◌+◌, ◌^◌, bit_and, bit_or, and_not, tst, u32, sub32, ◌/◌, ◌*◌, Bool, true, false,
  ◌≡◌, refl, ap, ◌∙◌, sym, inl, inr, leb, ltb, ◌==◌, ◌&&◌, ◌||◌, not, if◌then◌else◌, Bool-cases,
}
use emulator_pdp.State.{Cpu, Rk11}
use emulator_pdp.Bits.{
  bit_and-u16, merge-other, bit_or-bit_and, bit_or-bit_and_other, and_not-bit_and,
}
use emulator_pdp.Interrupt.{set_int, clr_int, int_rk}
use emulator_pdp.Mmu.{unibus_map}
use emulator_pdp.Memory
use emulator_pdp.Model.{is_attached}
use emulator_pdp.Device.Media.{media_get, rounds, count_of}
use emulator_pdp.Device.Rk11.{
  set_error, finish, transfer_word, transfer_from, transfer, start, go, advance, bus_address,
  disk_address, func_read, func_write, func_wchk, rker_hard, rker_ovr, rkcs_done, rkcs_mex,
  rkcs_err, rkcs_herr, rkcs_scp, rkcs_ie, rker_nxd, rker_nxs, rker_nxc, rk_numsc, rk_numcy,
}

-- DONE of the status register.
abbrev pub ready : Rk11 → Bool
ready d = tst d.rkcs rkcs_done

-- Busy exactly while DONE is clear.
abbrev pub IsPhased : Rk11 → Type 0
IsPhased d = d.busy ≡ not (ready d)

-- The phase of `d'` is that of `d`.
abbrev SamePhase : Rk11 → Rk11 → Type 0
SamePhase d d' = (d'.busy ≡ d.busy) × (ready d' ≡ ready d)

-- A bit that is set aside from DONE.
ready-bit_or : (x m : ℕ) → bit_and m rkcs_done ≡ 0 → tst (bit_or x m) rkcs_done ≡ tst x rkcs_done
ready-bit_or x m h = ap (λ t. not (t == 0)) (bit_or-bit_and_other x m rkcs_done h)

set_error-SamePhase : (err : ℕ) (d : Rk11) → SamePhase d (set_error err d)
unfolding set_error
set_error-SamePhase err d = elim (Bool-cases (tst (bit_or d.rker err) rker_hard)) [
  | inl hard ↦ rw hard (
    refl,
    ready-bit_or (bit_or d.rkcs rkcs_err) rkcs_herr refl ∙ ready-bit_or d.rkcs rkcs_err refl,
  )
  | inr soft ↦ rw soft (refl, ready-bit_or d.rkcs rkcs_err refl)
]

-- The comparison of a write check.
abbrev same_word : ℕ → ℕ → ℕ → ℕ → Cpu → Bool
same_word func ma da i c =
    Memory.read_word c.mem (unibus_map c (u32 (ma + i * 2))) == media_get c.rk.disk (da + i)

transfer_word-SamePhase :
    (func ma da i : ℕ) (c : Cpu) → SamePhase c.rk (transfer_word func ma da i c).rk
unfolding transfer_word
transfer_word-SamePhase func ma da i c = elim (Bool-cases (func == func_read)) [
  | inl e ↦ rw e (refl, refl)
  | inr a ↦ elim (Bool-cases (func == func_write)) [
    | inl e ↦ rw (a, e) (refl, refl)
    | inr b ↦ elim (Bool-cases (func == func_wchk && not (same_word func ma da i c))) [
      | inl e ↦ rw (a, b, e) (set_error-SamePhase 0o1 c.rk)
      | inr e ↦ rw (a, b, e) (refl, refl)
    ]
  ]
]

transfer_from-SamePhase :
    (func ma da left i : ℕ) (c : Cpu) → SamePhase c.rk (transfer_from func ma da left i c).rk
unfolding transfer_from
transfer_from-SamePhase func ma da zero i c = (refl, refl)
transfer_from-SamePhase func ma da (suc left) i c =
    let one = transfer_word-SamePhase func ma da i c in
    let rest = transfer_from-SamePhase func ma da left (i + 1) (transfer_word func ma da i c) in
    (rest.0 ∙ one.0, rest.1 ∙ one.1)

advance-SamePhase : (ma da wc : ℕ) (d : Rk11) → SamePhase d (advance ma da wc d)
advance-SamePhase ma da wc d = (refl, ap (λ t. not (t == 0)) kept)
  where
    kept : bit_and (advance ma da wc d).rkcs rkcs_done ≡ bit_and d.rkcs rkcs_done
    kept = bit_and-u16 _ rkcs_done refl ∙ merge-other d.rkcs _ rkcs_mex rkcs_done refl

overrun-SamePhase :
    (over : Bool) (d : Rk11) → SamePhase d (if over then set_error rker_ovr d else d)
overrun-SamePhase true d = set_error-SamePhase rker_ovr d
overrun-SamePhase false d = (refl, refl)

transfer-SamePhase : (func : ℕ) (c : Cpu) → SamePhase c.rk (transfer func c).rk
unfolding transfer
transfer-SamePhase func c =
    let d = c.rk in
    let over = ltb d.disk_words (u32 (disk_address d + count_of d.rkwc)) in
    let wc = if over then sub32 d.disk_words (disk_address d) else count_of d.rkwc in
    let c1 = record c { rk = if over then set_error rker_ovr d else d } in
    let moved = transfer_from-SamePhase func (bus_address d) (disk_address d) (rounds wc) 0 c1 in
    let marked = overrun-SamePhase over d in
    let stepped =
      advance-SamePhase (bus_address d) (disk_address d) wc
        (transfer_from func (bus_address d) (disk_address d) (rounds wc) 0 c1).rk in
    (moved.0 ∙ marked.0, stepped.1 ∙ moved.1 ∙ marked.1)

-- A register of which DONE was set, and one of which it was cleared last.
ready-set : (x : ℕ) → tst (bit_or x rkcs_done) rkcs_done ≡ true
ready-set x = ap (λ t. not (t == 0)) (bit_or-bit_and x rkcs_done)

ready-cleared : (x : ℕ) → tst (and_not x rkcs_done) rkcs_done ≡ false
ready-cleared x = ap (λ t. not (t == 0)) (and_not-bit_and x rkcs_done)

pub finish-IsPhased : (c : Cpu) → IsPhased (finish c).rk
unfolding finish set_int clr_int
finish-IsPhased c = elim (Bool-cases (tst (bit_or c.rk.rkcs rkcs_done) rkcs_ie)) [
  | inl on ↦ rw on (ap not (sym (ready-set c.rk.rkcs)))
  | inr off ↦ rw off (ap not (sym (ready-set c.rk.rkcs)))
]

either-SamePhase :
    (moves : Bool) (func : ℕ) (c : Cpu) → SamePhase c.rk (if moves then transfer func c else c).rk
either-SamePhase true func c = transfer-SamePhase func c
either-SamePhase false func c = (refl, refl)

start-IsPhased : (func : ℕ) (c : Cpu) → ready c.rk ≡ false → IsPhased (start func c).rk
unfolding start
start-IsPhased func c h =
    let moves = func == func_read || func == func_write || func == func_wchk in
    ap not (sym ((either-SamePhase moves func c).1 ∙ h))

-- The machine of `go` past its reset case.
abbrev launched : Cpu → Cpu
launched c =
    let d = c.rk in
    clr_int int_rk
      (record c { rk = record d { rkcs = and_not (and_not d.rkcs rkcs_scp) rkcs_done } })

launched-ready : (c : Cpu) → ready (launched c).rk ≡ false
unfolding clr_int
launched-ready c = ready-cleared (and_not c.rk.rkcs rkcs_scp)

fail-IsPhased : (err : ℕ) (c : Cpu) → IsPhased (finish (record c { rk = set_error err c.rk })).rk
fail-IsPhased err c = finish-IsPhased (record c { rk = set_error err c.rk })

pub go-IsPhased : (c : Cpu) → IsPhased (go c).rk
unfolding go clr_int
go-IsPhased c =
    let c1 = launched c in
    let func = bit_and c.rk.rkcs 0o16 / 2 in
    let sect = if func == 6 then 0 else bit_and c.rk.rkda 0o17 in
    let cyl = if func == 6 then 0 else bit_and (c.rk.rkda / 2 ^ 5) 0o377 in
    elim (Bool-cases (func == 0)) [
      | inl e ↦ rw e refl
      | inr a ↦ elim (Bool-cases (not (is_attached c.rk.disk) || tst c.rk.rkda 0o160000)) [
        | inl e ↦ rw (a, e) (fail-IsPhased rker_nxd c1)
        | inr b ↦ elim (Bool-cases (func == 7)) [
          | inl e ↦ rw (a, b, e) (finish-IsPhased c1)
          | inr d ↦ elim (Bool-cases (leb rk_numsc sect)) [
            | inl e ↦ rw (a, b, d, e) (fail-IsPhased rker_nxs c1)
            | inr f ↦ elim (Bool-cases (leb rk_numcy cyl)) [
              | inl e ↦ rw (a, b, d, f, e) (fail-IsPhased rker_nxc c1)
              | inr g ↦
                  rw (a, b, d, f, g)
                    (start-IsPhased (if func == 6 then 4 else func) c1 (launched-ready c))
            ]
          ]
        ]
      ]
    ]
