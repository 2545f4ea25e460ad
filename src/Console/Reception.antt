-- ===== src/Console/Reception.antt =====
-- src/core/console: what the receiver of the DL11 takes, seen from the machine before and after.
use emulator_pdp.Prelude.{
  ℕ, bit_or, tst, not, ◌==◌, if◌then◌else◌, true, false, List, [], ◌∷◌, ◌≡◌, refl, ap, inl, inr,
  Bool-cases, ==_refl,
}
use emulator_pdp.State.{Cpu}
use emulator_pdp.Bits.{bit_or-bit_and}
use emulator_pdp.Interrupt.{set_int}
use emulator_pdp.Console.{console_input, dl11_done, dl11_ie}

-- The characters that came in between two states, of which the first has DONE clear or the buffer
-- was written over.
pub received : Cpu → Cpu → List ℕ
received before after =
    if tst before.tti_csr dl11_done
    then (if after.tti_buf == before.tti_buf then [] else after.tti_buf ∷ [])
    else if tst after.tti_csr dl11_done
    then after.tti_buf ∷ []
    else []

pub received_same : (c : Cpu) → received c c ≡ []
unfolding received
received_same c = elim (Bool-cases (tst c.tti_csr dl11_done)) [
  | inl e ↦ rw (e, ==_refl c.tti_buf) refl
  | inr e ↦ rw e refl
]

pub received-console_input :
    (ch : ℕ) (c : Cpu) → tst c.tti_csr dl11_done ≡ false → received c (console_input ch c) ≡ ch ∷ []
unfolding received console_input set_int
received-console_input ch c free =
    let done : tst (bit_or c.tti_csr dl11_done) dl11_done ≡ true =
      ap (λ t. not (t == 0)) (bit_or-bit_and c.tti_csr dl11_done) in
    elim (Bool-cases (tst (bit_or c.tti_csr dl11_done) dl11_ie)) [
      | inl e ↦ rw (free, e, done) refl
      | inr e ↦ rw (free, e, done) refl
    ]
