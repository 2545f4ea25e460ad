-- ===== src/Device/Tm11/Records.antt =====
-- src/core/devices/tm11.c: a record that is written, and the spacing over it.
use emulator_pdp.Prelude.{ℕ, ◌+◌, ◌==◌, false, ◌≡◌, refl, sym, ◌∙◌, arith, Bool-cases, inl, inr}
use emulator_pdp.State.{Cpu}
use emulator_pdp.Device.Tm11.{
  tap_len_at, framed, byte_count, write_record, space_reverse, space_forward, no_record,
}
use emulator_pdp.Device.Tm11.Tape.{image}
use emulator_pdp.Device.Tm11.Written.{
  IsWritable, record_layout, recorded, head_length, tail_length, pos-recorded, framed_lem, small,
  write_record_lem, image-recorded,
}

-- Spacing backwards changes no length on the tape.
tap_len_at-space_reverse :
    (c : Cpu) (at : ℕ) → tap_len_at (space_reverse c).tm at ≡ tap_len_at c.tm at
unfolding space_reverse tap_len_at
tap_len_at-space_reverse c at = elim (Bool-cases (c.tm.pos == 0)) [
  | inl e ↦ rw e refl
  | inr e ↦ rw e refl
]

module _ (c : Cpu) (h : IsWritable c) where
  abbrev n : ℕ
  n = byte_count c.tm

  abbrev p : ℕ
  p = c.tm.pos

  back_pos : (space_reverse (recorded c h)).tm.pos ≡ p
  unfolding space_reverse
  back_pos =
      let moved : ((recorded c h).tm.pos == 0) ≡ false =
        ground (arith, pos-recorded c h, framed_lem c h) in
      let written : (n == 0) ≡ false = ground (arith, h.some_bytes) in
      rw (moved, tail_length c h, written)
        (omega (arith, pos-recorded c h, framed_lem c h, h.room, h.len))

  back_length :
      tap_len_at (space_reverse (recorded c h)).tm (space_reverse (recorded c h)).tm.pos ≡ n
  back_length = rw back_pos (tap_len_at-space_reverse (recorded c h) p ∙ head_length c h)

  forward_pos : (space_forward (space_reverse (recorded c h))).tm.pos ≡ p + framed n
  unfolding space_forward
  forward_pos =
      let written : (n == 0) ≡ false = ground (arith, h.some_bytes) in
      let known : (n == no_record) ≡ false = ground (arith, small c h) in
      rw (back_length, written, known, back_pos)
        (omega (arith, pos-recorded c h, framed_lem c h, h.room, h.len))

-- Writing a record of at least one byte, where it fits on a tape that is not protected, leaves the
-- image as `record_layout` gives it at every place; spacing backwards then brings the head to where
-- it was, where the tape gives the length that was written; and spacing forwards from there brings
-- it to where the write had left it.
pub write_record-space_reverse :
    (c : Cpu) (j : ℕ)
    → IsWritable c
    → let w = write_record c in
      let back = space_reverse w in
      (image w j ≡ record_layout c j)
      × (back.tm.pos ≡ c.tm.pos)
      × (tap_len_at back.tm back.tm.pos ≡ byte_count c.tm)
      × ((space_forward back).tm.pos ≡ w.tm.pos)
write_record-space_reverse c j h =
    rw (write_record_lem c h) (
      image-recorded c h j,
      back_pos c h,
      back_length c h,
      forward_pos c h ∙ sym (pos-recorded c h),
    )
