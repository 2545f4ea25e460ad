-- ===== src/Device/Tm11/Tape.antt =====
-- src/core/devices/tm11.c: the bytes of an image of a tape, under the writes to it.
use emulator_pdp.Prelude.{
  ℕ, zero, suc, ◌+◌, ◌-◌, ◌^◌, ◌/◌, ◌%◌, ◌<◌, ◌≤◌, bit_and, ltb, leb, ◌==◌, ◌&&◌, if◌then◌else◌,
  ◌>>>◌, u8, u32, true, false, ◌≡◌, refl, ap, ◌∙◌, arith, Bool-cases, inl, inr,
}
use emulator_pdp.State.{Cpu}
use emulator_pdp.Model.{is_attached}
use emulator_pdp.Bits.{bit_and_low, bit_or_fields, bit_or-zero}
use emulator_pdp.Mmu.{unibus_map}
use emulator_pdp.Device.Media.Places.{media_get-media_set, is_attached-media_set}
use emulator_pdp.Device.Media.{media_get}
use emulator_pdp.Device.Tm11.{mem_read_byte, tap_len_at, copy_out, put_tape, put_length}

-- A byte of the image of the tape.
abbrev pub image : Cpu → ℕ → ℕ
image c = media_get c.tm.tape

-- What the copy to the tape keeps.
pub record IsKept (c d : Cpu) : Type 0 where
  pub attached : is_attached d.tm.tape ≡ is_attached c.tm.tape
  pub len : d.tm.tape_len ≡ c.tm.tape_len
  pub source : (a : ℕ) → mem_read_byte a d ≡ mem_read_byte a c

pub put_tape-IsKept : (at b : ℕ) (c : Cpu) → IsKept c (put_tape at b c)
unfolding put_tape mem_read_byte unibus_map
put_tape-IsKept at b c = record {
  attached = is_attached-media_set c.tm.tape at b;
  len = refl;
  source = λ a. refl;
}

pub IsKept-trans : {c d e : Cpu} → IsKept c d → IsKept d e → IsKept c e
IsKept-trans h k = record {
  attached = k.attached ∙ h.attached;
  len = k.len ∙ h.len;
  source = λ a. k.source a ∙ h.source a;
}

pub image-put_tape :
    (at b i : ℕ) (c : Cpu)
    → is_attached c.tm.tape ≡ true
    → image (put_tape at b c) i ≡ (if at == i then b else image c i)
unfolding put_tape
image-put_tape at b i c h = media_get-media_set c.tm.tape at b i h

-- The address of the k-th byte of a transfer.
abbrev pub bus_byte : ℕ → ℕ → ℕ
bus_byte xma k = bit_and (u32 (xma + k)) 0o777777

pub copy_out-IsKept : (xma to left i : ℕ) (c : Cpu) → IsKept c (copy_out xma to left i c)
unfolding copy_out
copy_out-IsKept xma to zero i c = record { attached = refl; len = refl; source = λ a. refl }
copy_out-IsKept xma to (suc left) i c =
    let b = mem_read_byte (bus_byte xma i) c in
    IsKept-trans (put_tape-IsKept (u32 (to + i)) b c)
      (copy_out-IsKept xma to left (i + 1) (put_tape (u32 (to + i)) b c))

pub image-copy_out :
    (xma to left i j : ℕ) (c : Cpu)
    → is_attached c.tm.tape ≡ true
    → to + i + left < 2 ^ 32
    → image (copy_out xma to left i c) j ≡ (
        if leb (to + i) j && ltb j (to + i + left)
        then mem_read_byte (bus_byte xma (j - to)) c
        else image c j)
unfolding copy_out
image-copy_out xma to zero i j c h fits = ground arith
image-copy_out xma to (suc left) i j c h fits =
    let b = mem_read_byte (bus_byte xma i) c in
    let c1 = put_tape (u32 (to + i)) b c in
    let kept = put_tape-IsKept (u32 (to + i)) b c in
    let rest = image-copy_out xma to left (i + 1) j c1 (kept.attached ∙ h) (omega arith) in
    let at : u32 (to + i) ≡ to + i = omega arith in
    let one = image-put_tape (u32 (to + i)) b j c h in
    elim (Bool-cases (to + i == j)) [
      | inl e ↦
          let here : j ≡ to + i = ground (arith, e) in
          let k : j - to ≡ i = omega arith in
          ground (arith, rest, one, at, ap (λ k. mem_read_byte (bus_byte xma k) c) k)
      | inr e ↦ ground (arith, rest, one, at, kept.source (bus_byte xma (j - to)))
    ]

pub put_length-IsKept : (at n : ℕ) (c : Cpu) → IsKept c (put_length at n c)
unfolding put_length
put_length-IsKept at n c =
    IsKept-trans (IsKept-trans (put_tape-IsKept _ _ c) (put_tape-IsKept _ _ _))
      (IsKept-trans (put_tape-IsKept _ _ _) (put_tape-IsKept _ _ _))

-- The bytes of a length of 16 bits.
abbrev pub length_byte : ℕ → ℕ → ℕ
length_byte n k = if k == 0 then n % 2 ^ 8 else if k == 1 then n / 2 ^ 8 else 0

pub image-put_length :
    (at n i : ℕ) (c : Cpu)
    → is_attached c.tm.tape ≡ true
    → at + 4 ≤ 2 ^ 32
    → n < 2 ^ 16
    → image (put_length at n c) i
      ≡ (if leb at i && ltb i (at + 4) then length_byte n (i - at) else image c i)
unfolding put_length
image-put_length at n i c h fits small =
    let b0 = u8 (bit_and n 0o377) in
    let b1 = u8 (bit_and (n >>> 8) 0o377) in
    let c1 = put_tape at b0 c in
    let c2 = put_tape (u32 (at + 1)) b1 c1 in
    let c3 = put_tape (u32 (at + 2)) 0 c2 in
    let k1 = put_tape-IsKept at b0 c in
    let k2 = IsKept-trans k1 (put_tape-IsKept (u32 (at + 1)) b1 c1) in
    let k3 = IsKept-trans k2 (put_tape-IsKept (u32 (at + 2)) 0 c2) in
    ground (
      arith,
      image-put_tape at b0 i c h,
      image-put_tape (u32 (at + 1)) b1 i c1 (k1.attached ∙ h),
      image-put_tape (u32 (at + 2)) 0 i c2 (k2.attached ∙ h),
      image-put_tape (u32 (at + 3)) 0 i c3 (k3.attached ∙ h),
      bit_and_low 8 n,
      bit_and_low 8 (n / 2 ^ 8),
    )

pub tap_len_at_lem :
    (c : Cpu) (at n : ℕ)
    → at + 4 ≤ c.tm.tape_len
    → c.tm.tape_len < 2 ^ 32
    → n < 2 ^ 16
    → ((k : ℕ) → k < 4 → image c (at + k) ≡ length_byte n k)
    → tap_len_at c.tm at ≡ n
unfolding tap_len_at
tap_len_at_lem c at n room len small bytes =
    let inside : ltb c.tm.tape_len (u32 (at + 4)) ≡ false = ground arith in
    let a0 : u32 (at + 0) ≡ at + 0 = omega arith in
    let a1 : u32 (at + 1) ≡ at + 1 = omega arith in
    let a2 : u32 (at + 2) ≡ at + 2 = omega arith in
    let a3 : u32 (at + 3) ≡ at + 3 = omega arith in
    rw
      (
        inside,
        a0,
        a1,
        a2,
        a3,
        bytes 0 (omega arith),
        bytes 1 (omega arith),
        bytes 2 (omega arith),
        bytes 3 (omega arith),
      )
      (bit_or-zero _
        ∙ bit_or-zero _
        ∙ bit_or_fields 8 (n / 2 ^ 8) (n % 2 ^ 8) (omega arith)
        ∙ omega arith)
