-- ===== src/Interrupt/Banks.antt =====
-- The banked registers: a change of mode or register set and the change back.
use emulator_pdp.Prelude.{ℕ, bit_and, u16, field, ltb, ◌==◌, if◌then◌else◌, ◌≡◌, ◌∙◌, refl, arith}
use emulator_pdp.State.{Cpu}
use emulator_pdp.Interrupt.{put_psw}

-- A PSW that the model can hold.
abbrev pub Holdable : ℕ → Cpu → Type 0
Holdable psw c = u16 (bit_and psw c.cfg.psw_mask) ≡ psw

module _ (value : ℕ) (c : Cpu) where
  -- The PSW that is loaded, its register set and its mode, and those before.
  abbrev pub loaded : ℕ
  loaded = u16 (bit_and value c.cfg.psw_mask)

  pub psw-put_psw : (put_psw value c).psw ≡ loaded
  unfolding put_psw
  psw-put_psw = refl

  pub cfg-put_psw : (put_psw value c).cfg ≡ c.cfg
  unfolding put_psw
  cfg-put_psw = ground arith

  pub r-put_psw :
      (i : ℕ)
      → (put_psw value c).r i ≡ (
          if i == 6
          then (if field loaded 14 2 == field c.psw 14 2
              then c.r 6
              else c.stackfile (field loaded 14 2))
          else if ltb i 6
          then (if field loaded 11 1 == field c.psw 11 1
              then c.r i
              else c.regfile i (field loaded 11 1))
          else c.r i)
  unfolding put_psw
  r-put_psw i = ground arith

  pub regfile-put_psw :
      (i s : ℕ)
      → (put_psw value c).regfile i s ≡ (
          if field loaded 11 1 == field c.psw 11 1
          then c.regfile i s
          else if ltb i 6
          then (if field c.psw 11 1 == s then c.r i else c.regfile i s)
          else c.regfile i s)
  unfolding put_psw
  regfile-put_psw i s = ground arith

  pub stackfile-put_psw :
      (m : ℕ)
      → (put_psw value c).stackfile m ≡ (
          if field loaded 14 2 == field c.psw 14 2
          then c.stackfile m
          else if field c.psw 14 2 == m
          then c.r 6
          else c.stackfile m)
  unfolding put_psw
  stackfile-put_psw m = ground arith

-- If the mask of the model keeps every bit of the current PSW, then loading any PSW and then
-- that one again leaves the PSW and every register as they were.
pub put_psw-put_psw :
    (c : Cpu) (value i : ℕ)
    → Holdable c.psw c
    → ((put_psw c.psw (put_psw value c)).psw ≡ c.psw)
      × ((put_psw c.psw (put_psw value c)).r i ≡ c.r i)
put_psw-put_psw c value i h =
    let c1 = put_psw value c in
    let back : u16 (bit_and c.psw c1.cfg.psw_mask) ≡ c.psw = rw (cfg-put_psw value c) h in
    (
      psw-put_psw c.psw c1 ∙ back,
      rw (r-put_psw c.psw c1 i, back)
          (ground (
            arith,
            psw-put_psw value c,
            r-put_psw value c i,
            regfile-put_psw value c i (field c.psw 11 1),
            stackfile-put_psw value c (field c.psw 14 2),
          )),
    )
