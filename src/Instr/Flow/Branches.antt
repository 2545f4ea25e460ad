-- ===== src/Instr/Flow/Branches.antt =====
-- The branches: their pairs, what they say after a comparison, and where they lead.
use emulator_pdp.Prelude.{
  ℕ, ◌+◌, ◌-◌, ◌*◌, ◌^◌, ◌%◌, ◌<◌, xor, Bool, true, false, ◌≡◌, refl, leb, ltb, ◌==◌, ◌&&◌, ◌||◌,
  not, arith, ◌⊎◌, inl, inr, ◌∙◌, ap,
}
use emulator_pdp.State.{Cpu}
use emulator_pdp.Bits.{bit_and_low}
use emulator_pdp.Alu.{alu_sub, flag_set, psw_n, psw_z, psw_v, psw_c}
use emulator_pdp.Alu.Sums.{span, half, biased, diff_fits, alu_sub-codes}
use emulator_pdp.Instr.Flow.{taken, branch_taken, branch_offset, is_branch}

not-not : (a : Bool) → a ≡ not (not a)
not-not true = refl
not-not false = refl

de_morgan : (a b : Bool) → (a || b) ≡ not (not a && not b)
de_morgan true b = refl
de_morgan false b = not-not b

pairs :
    (k : ℕ)
    → is_branch (2 * k) ≡ true
    → (k ≡ 1) ⊎ (k ≡ 2) ⊎ (k ≡ 3) ⊎ (k ≡ 64) ⊎ (k ≡ 65) ⊎ (k ≡ 66) ⊎ (k ≡ 67)
unfolding is_branch
pairs k h = ground arith

-- Of two branches whose opcodes differ in the lowest bit alone, BR left out, exactly one is
-- taken, whatever the four codes are.
pub taken-opposite :
    (k : ℕ) (n z v c : Bool)
    → is_branch (2 * k) ≡ true
    → taken (2 * k + 1) n z v c ≡ not (taken (2 * k) n z v c)
unfolding taken is_branch
taken-opposite k n z v c h = elim (pairs k h) [
  | inl e ↦ rw e (not-not z)
  | inr (inl e) ↦ rw e (not-not (xor n v))
  | inr (inr (inl e)) ↦ rw e (not-not (z || xor n v))
  | inr (inr (inr (inl e))) ↦ rw e (not-not n)
  | inr (inr (inr (inr (inl e)))) ↦ rw e (de_morgan c z)
  | inr (inr (inr (inr (inr (inl e))))) ↦ rw e (not-not v)
  | inr (inr (inr (inr (inr (inr e))))) ↦ rw e (not-not c)
]

signed_less :
    (x y : ℕ) (b : Bool)
    → x < span b
    → y < span b
    → xor (leb (half b) ((x + span b - y) % span b)) (not (diff_fits b x y))
      ≡ ltb (biased b x) (biased b y)
signed_less x y true hx hy = ground arith
signed_less x y false hx hy = ground arith

equal_codes :
    (x y : ℕ) (b : Bool) → x < span b → y < span b → ((x + span b - y) % span b == 0) ≡ (x == y)
equal_codes x y true hx hy = ground arith
equal_codes x y false hx hy = ground arith

biased_equal :
    (x y : ℕ) (b : Bool) → x < span b → y < span b → (x == y) ≡ (biased b x == biased b y)
biased_equal x y true hx hy = ground arith
biased_equal x y false hx hy = ground arith

module _ (x y : ℕ) (b : Bool) (c : Cpu) where
  -- The machine after a comparison of `x` with `y`.
  abbrev pub compared : Cpu
  compared = (alu_sub x y b c).1

  -- After a comparison of two numbers of the width in a machine whose codes are not frozen, the
  -- conditional branches are taken as their names say: BLT, BGE, BLE and BGT by the signed
  -- values, BEQ and BNE by equality, BCS, BCC, BLOS and BHI by the unsigned values.
  pub branch_taken-alu_sub :
      x < span b
      → y < span b
      → c.cc_frozen ≡ false
      → (branch_taken compared 0o5 ≡ ltb (biased b x) (biased b y))
        × (branch_taken compared 0o4 ≡ leb (biased b y) (biased b x))
        × (branch_taken compared 0o7 ≡ leb (biased b x) (biased b y))
        × (branch_taken compared 0o6 ≡ ltb (biased b y) (biased b x))
        × (branch_taken compared 0o3 ≡ (x == y))
        × (branch_taken compared 0o2 ≡ not (x == y))
        × (branch_taken compared 0o207 ≡ ltb x y)
        × (branch_taken compared 0o206 ≡ leb y x)
        × (branch_taken compared 0o203 ≡ leb x y)
        × (branch_taken compared 0o202 ≡ ltb y x)
  unfolding branch_taken taken
  branch_taken-alu_sub hx hy live =
      let codes = alu_sub-codes x y b c hx hy live in
      let less : xor (flag_set psw_n compared) (flag_set psw_v compared)
          ≡ ltb (biased b x) (biased b y) =
        rw (codes.4, codes.2) (signed_less x y b hx hy) in
      let same : flag_set psw_z compared ≡ (x == y) = codes.3 ∙ equal_codes x y b hx hy in
      let same_biased : (x == y) ≡ (biased b x == biased b y) = biased_equal x y b hx hy in
      let below : flag_set psw_c compared ≡ ltb x y = codes.1 in
      (
        less,
        ground (arith, less),
        ground (arith, less, same, same_biased),
        ground (arith, less, same, same_biased),
        same,
        ap not same,
        below,
        ground (arith, below),
        ground (arith, below, same),
        ground (arith, below, same),
      )

-- The displacement of a branch is twice the low byte read as a signed number, modulo 2^16.
pub branch_offset-signed :
    (word : ℕ) → (branch_offset word + 2 * 2 ^ 7) % 2 ^ 16 ≡ 2 * ((word + 2 ^ 7) % 2 ^ 8)
unfolding branch_offset
branch_offset-signed word = ground (arith, bit_and_low 8 word)
