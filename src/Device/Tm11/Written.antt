-- ===== src/Device/Tm11/Written.antt =====
-- src/core/devices/tm11.c: the image after a record is written.
use emulator_pdp.Prelude.{
  ℕ, ◌+◌, ◌-◌, ◌^◌, ◌%◌, ◌<◌, ◌≤◌, bit_and, and_not, tst, ltb, leb, ◌==◌, ◌&&◌, ◌||◌, if◌then◌else◌,
  u16, u32, sub32, true, false, ◌≡◌, refl, ap, ◌∙◌, arith, Bool-cases, inl, inr,
}
use emulator_pdp.State.{Cpu}
use emulator_pdp.Model.{is_attached}
use emulator_pdp.Bits.{bit_and_low, and_not-add-bit_and}
use emulator_pdp.Device.Media.{count_of}
use emulator_pdp.Device.Tm11.{
  mem_read_byte, tap_len_at, framed, copy_out, put_tape, put_length, bus_address, byte_count,
  write_record,
}
use emulator_pdp.Device.Tm11.Tape.{
  image, IsKept, bus_byte, put_tape-IsKept, IsKept-trans, image-put_tape, copy_out-IsKept,
  image-copy_out, length_byte, put_length-IsKept, image-put_length, tap_len_at_lem,
}

-- The order of the parts does not matter, since they do not overlap.
in_order :
    (p n j last byte first old : ℕ)
    → let tail = p + 4 + (n + n % 2) in
      (if leb tail j && ltb j (tail + 4)
        then last
        else if n % 2 == 1 && j == p + 4 + n
        then 0
        else if leb (p + 4) j && ltb j (p + 4 + n)
        then byte
        else if leb p j && ltb j (p + 4)
        then first
        else old)
      ≡ (if leb p j && ltb j (p + 4)
          then first
          else if leb (p + 4) j && ltb j (p + 4 + n)
          then byte
          else if leb (p + 4 + n) j && ltb j tail
          then 0
          else if leb tail j && ltb j (tail + 4)
          then last
          else old)
in_order p n j last byte first old = ground arith

-- A record of at least one byte that fits on a tape that is attached and not protected.
pub record IsWritable (c : Cpu) : Type 0 where
  pub attached : is_attached c.tm.tape ≡ true
  pub unprotected : c.tm.wrp ≡ false
  pub some_bytes : 0 < byte_count c.tm
  pub room : c.tm.pos + (byte_count c.tm + byte_count c.tm % 2) + 8 ≤ c.tm.tape_len
  pub len : c.tm.tape_len < 2 ^ 32

-- The image after a record is written: at each place the length, the bytes from memory, a 0 after an
-- odd number of them, the length again, and what was there elsewhere.
abbrev pub record_layout : Cpu → ℕ → ℕ
record_layout c j =
    let n = byte_count c.tm in
    let p = c.tm.pos in
    let tail = p + 4 + (n + n % 2) in
    if leb p j && ltb j (p + 4)
    then length_byte n (j - p)
    else if leb (p + 4) j && ltb j (p + 4 + n)
    then mem_read_byte (bus_byte (bus_address c.tm) (j - (p + 4))) c
    else if leb (p + 4 + n) j && ltb j tail
    then 0
    else if leb tail j && ltb j (tail + 4)
    then length_byte n (j - tail)
    else image c j

module _ (c : Cpu) (h : IsWritable c) where
  abbrev n : ℕ
  n = byte_count c.tm

  abbrev p : ℕ
  p = c.tm.pos

  abbrev body : ℕ
  body = u32 (p + 4)

  abbrev xma : ℕ
  xma = bus_address c.tm

  abbrev trailer : ℕ
  trailer = u32 (body + and_not (u32 (n + 1)) 1)

  pub small : n < 2 ^ 16
  small = omega (arith, bit_and_low 16 (count_of c.tm.bc))

  even : and_not (u32 (n + 1)) 1 ≡ n + n % 2
  even = omega (arith, small, and_not-add-bit_and (u32 (n + 1)) 1, bit_and_low 1 (u32 (n + 1)))

  body_at : body ≡ p + 4
  body_at = omega (arith, h.room, h.len)

  trailer_at : trailer ≡ p + 4 + (n + n % 2)
  trailer_at = omega (arith, h.room, h.len, body_at, even)

  pub framed_lem : framed n ≡ n + n % 2 + 8
  framed_lem = omega (arith, even, small)

  -- The stages of the write.
  headed : Cpu
  headed = put_length p n c

  copied : Cpu
  copied = copy_out xma body n 0 headed

  padded : Cpu
  padded = if tst n 1 then put_tape (u32 (body + n)) 0 copied else copied

  closed : Cpu
  closed = put_length trailer n padded

  copied-IsKept : IsKept c copied
  unfolding copied headed
  copied-IsKept = IsKept-trans (put_length-IsKept p n c) (copy_out-IsKept xma body n 0 headed)

  padded-IsKept : IsKept c padded
  unfolding padded
  padded-IsKept = elim (Bool-cases (tst n 1)) [
    | inl e ↦ rw e (IsKept-trans copied-IsKept (put_tape-IsKept (u32 (body + n)) 0 copied))
    | inr e ↦ rw e copied-IsKept
  ]

  closed-IsKept : IsKept c closed
  unfolding closed
  closed-IsKept = IsKept-trans padded-IsKept (put_length-IsKept trailer n padded)

  image-padded :
      (j : ℕ) → image padded j ≡ (if n % 2 == 1 && j == p + 4 + n then 0 else image copied j)
  unfolding padded
  image-padded j = elim (Bool-cases (tst n 1)) [
    | inl e ↦ rw e (
        ground (
          arith,
          e,
          h.room,
          h.len,
          body_at,
          bit_and_low 1 n,
          image-put_tape (u32 (body + n)) 0 j copied (copied-IsKept.attached ∙ h.attached),
        ))
    | inr e ↦ rw e (ground (arith, e, bit_and_low 1 n))
  ]

  image-copied :
      (j : ℕ)
      → image copied j ≡ (
          if leb (p + 4) j && ltb j (p + 4 + n)
          then mem_read_byte (bus_byte xma (j - (p + 4))) c
          else if leb p j && ltb j (p + 4)
          then length_byte n (j - p)
          else image c j)
  unfolding copied headed
  image-copied j =
      let k = put_length-IsKept p n c in
      ground (
        arith,
        h.room,
        h.len,
        body_at,
        small,
        ap (λ b. mem_read_byte (bus_byte xma (j - b)) c) body_at,
        k.source (bus_byte xma (j - body)),
        image-put_length p n j c h.attached (omega (arith, h.room, h.len)) small,
        image-copy_out xma body n 0 j headed (k.attached ∙ h.attached)
            (omega (arith, h.room, h.len, body_at)),
      )

  pub recorded : Cpu
  recorded =
      let d = closed.tm in
      record closed {
        tm = record d {
          ca = u16 (bit_and (u32 (xma + n)) 0o177777);
          bc = 0;
          pos = u32 (trailer + 4);
        };
      }

  pub write_record_lem : write_record c ≡ recorded
  unfolding write_record recorded closed padded copied headed
  write_record_lem =
      let free : (c.tm.wrp || ltb c.tm.tape_len (u32 (p + framed n))) ≡ false =
        rw h.unprotected (ground (arith, h.room, h.len, framed_lem)) in
      rw free refl

  pub pos-recorded : recorded.tm.pos ≡ p + framed n
  unfolding recorded
  pos-recorded = omega (arith, trailer_at, framed_lem, h.room, h.len)

  len-recorded : recorded.tm.tape_len ≡ c.tm.tape_len
  unfolding recorded
  len-recorded = closed-IsKept.len

  pub image-recorded : (j : ℕ) → image recorded j ≡ record_layout c j
  unfolding recorded closed
  image-recorded j =
      image-put_length trailer n j padded (padded-IsKept.attached ∙ h.attached)
        (omega (arith, trailer_at, h.room, h.len)) small
      ∙ rw (trailer_at, image-padded j, image-copied j) (in_order p n j _ _ _ _)

  pub head_length : tap_len_at recorded.tm p ≡ n
  head_length =
      tap_len_at_lem recorded p n (omega (arith, len-recorded, h.room))
        (omega (arith, len-recorded, h.len)) small
        (λ k low. ground (arith, image-recorded (p + k), low))

  pub tail_length : tap_len_at recorded.tm (sub32 recorded.tm.pos 4) ≡ n
  tail_length =
      let at : sub32 recorded.tm.pos 4 ≡ p + 4 + (n + n % 2) =
        omega (arith, pos-recorded, framed_lem, h.room, h.len) in
      rw at (
        tap_len_at_lem recorded (p + 4 + (n + n % 2)) n (omega (arith, len-recorded, h.room))
          (omega (arith, len-recorded, h.len)) small
          (λ k low. ground (arith, image-recorded (p + 4 + (n + n % 2) + k), low)))
