-- ===== src/Alu/Flags.antt =====
-- The condition codes of `set_flag` and `set_nz`: each is set on its own.
use emulator_pdp.Prelude.{
  ℕ, ◌-◌, ◌^◌, bit_and, bit_or, and_not, tst, u16, Bool, true, false, ◌≡◌, refl, ◌∙◌, ◌==◌,
  if◌then◌else◌, Bool-cases, inl, inr,
}
use emulator_pdp.State.{Cpu}
use emulator_pdp.Bits.{
  bit_and-u16, bit_or-bit_and, bit_or-bit_and_other, and_not-bit_and, and_not-bit_and_other,
}
use emulator_pdp.Alu.{
  set_flag, flag_set, set_nz, set_nzvc, psw_n, psw_z, psw_v, psw_c, width_mask, width_msb,
}

-- A code that is written is read back.
pub flag_set-set_flag :
    (f : ℕ) (on : Bool) (c : Cpu)
    → c.cc_frozen ≡ false
    → bit_and (2 ^ 16 - 1) f ≡ f
    → (f == 0) ≡ false
    → flag_set f (set_flag f on c) ≡ on
unfolding set_flag
flag_set-set_flag f true c live narrow some_bit = rw (live, bit_or-bit_and c.psw f, some_bit) refl
flag_set-set_flag f false c live narrow some_bit =
    rw (live, bit_and-u16 (and_not c.psw f) f narrow, and_not-bit_and c.psw f) refl

-- A code is not changed by the write of another, frozen or not.
pub flag_set-set_flag_other :
    (f g : ℕ) (on : Bool) (c : Cpu)
    → bit_and (2 ^ 16 - 1) g ≡ g
    → bit_and f g ≡ 0
    → flag_set g (set_flag f on c) ≡ flag_set g c
unfolding set_flag
flag_set-set_flag_other f g on c narrow apart = elim (Bool-cases c.cc_frozen) [
  | inl frozen ↦ rw frozen refl
  | inr live ↦ rw live (masked on)
]
  where
    masked : (b : Bool) → tst (if b then bit_or c.psw f else u16 (and_not c.psw f)) g ≡ tst c.psw g
    masked true = rw (bit_or-bit_and_other c.psw f g apart) refl
    masked false =
        rw (bit_and-u16 (and_not c.psw f) g narrow, and_not-bit_and_other c.psw f g apart) refl

set_flag-live :
    (f : ℕ) (on : Bool) (c : Cpu) → c.cc_frozen ≡ false → (set_flag f on c).cc_frozen ≡ false
unfolding set_flag
set_flag-live f on c live = rw live refl

-- The four codes of a machine whose codes are not frozen, after `set_nzvc`.
module _ (result : ℕ) (bytemode v carry : Bool) (c : Cpu) (live : c.cc_frozen ≡ false) where
  abbrev n : Bool
  n = tst result (width_msb bytemode)

  abbrev z : Bool
  z = bit_and result (width_mask bytemode) == 0

  abbrev c_n : Cpu
  c_n = set_flag psw_n n c

  abbrev c_z : Cpu
  c_z = set_flag psw_z z c_n

  abbrev c_v : Cpu
  c_v = set_flag psw_v v c_z

  n_live : c_n.cc_frozen ≡ false
  n_live = set_flag-live psw_n n c live

  z_live : c_z.cc_frozen ≡ false
  z_live = set_flag-live psw_z z c_n n_live

  v_live : c_v.cc_frozen ≡ false
  v_live = set_flag-live psw_v v c_z z_live

  pub set_nzvc-codes :
      (flag_set psw_c (set_nzvc result bytemode v carry c) ≡ carry)
      × (flag_set psw_v (set_nzvc result bytemode v carry c) ≡ v)
      × (flag_set psw_z (set_nzvc result bytemode v carry c) ≡ z)
      × (flag_set psw_n (set_nzvc result bytemode v carry c) ≡ n)
  unfolding set_nzvc set_nz
  set_nzvc-codes = (
    flag_set-set_flag psw_c carry c_v v_live refl refl,
    flag_set-set_flag_other psw_c psw_v carry c_v refl refl
        ∙ flag_set-set_flag psw_v v c_z z_live refl refl,
    flag_set-set_flag_other psw_c psw_z carry c_v refl refl
        ∙ flag_set-set_flag_other psw_v psw_z v c_z refl refl
        ∙ flag_set-set_flag psw_z z c_n n_live refl refl,
    flag_set-set_flag_other psw_c psw_n carry c_v refl refl
        ∙ flag_set-set_flag_other psw_v psw_n v c_z refl refl
        ∙ flag_set-set_flag_other psw_z psw_n z c_n refl refl
        ∙ flag_set-set_flag psw_n n c live refl refl,
  )
