-- ===== src/Bits/Step.antt =====
-- The lowest digit of `&`, `|` and `^`, from the digit recursion that the native operations mean.
use Prim.Native.Nat.{digits, bitwise, bit_and-bitwise, bit_or-bitwise, bit_xor-bitwise, differ}
use emulator_pdp.Prelude.{
  ℕ, zero, suc, ◌+◌, ◌*◌, ◌/◌, ◌%◌, ◌≤◌, ◌<◌, min, max, bit_and, bit_or, bit_xor, ◌≡◌, refl, sym,
  ◌∙◌, arith,
}

module _ (rest : ℕ → ℕ) (op : ℕ → ℕ → ℕ) where
  -- Without a first number both amounts of fuel give the rest of the second.
  exhausted : (fuel y : ℕ) → digits rest op fuel 0 y ≡ digits rest op 0 0 y
  exhausted zero y = refl
  exhausted (suc fuel) y = refl

  -- More fuel than `x` needs changes nothing.
  spare_fuel :
      (fuel more x y : ℕ)
      → x ≤ fuel
      → fuel ≤ more
      → digits rest op more x y ≡ digits rest op fuel x y
  spare_fuel fuel more zero y covers less = exhausted more y ∙ sym (exhausted fuel y)
  spare_fuel zero more (suc x) y covers less = absurd (omega arith)
  spare_fuel (suc fuel) zero (suc x) y covers less = absurd (omega arith)
  spare_fuel (suc fuel) (suc more) (suc x) y covers less =
      let half = suc x / 2 in rw (spare_fuel fuel more half (y / 2) (omega arith) (omega arith))

  pub lowest_digit :
      (x y : ℕ)
      → bitwise rest op (suc x) y ≡ op (suc x % 2) (y % 2) + 2 * bitwise rest op (suc x / 2) (y / 2)
  lowest_digit x y =
      let half = suc x / 2 in
      omega (arith, spare_fuel half x half (y / 2) (omega arith) (omega arith))

pub bit_xor_step : (x y : ℕ) → bit_xor x y ≡ bit_xor (x / 2) (y / 2) * 2 + (x + y) % 2
bit_xor_step zero y = simp bit_xor-bitwise (omega arith)
bit_xor_step (suc x) y = simp bit_xor-bitwise (
    omega (
      arith,
      lowest_digit (λ t. t) differ x y,
      differ_lem (suc x % 2) (y % 2) (omega arith) (omega arith),
    ))
  where
    differ_lem : (a b : ℕ) → a < 2 → b < 2 → differ a b ≡ (a + b) % 2
    differ_lem zero zero p q = refl
    differ_lem zero (suc zero) p q = refl
    differ_lem (suc zero) zero p q = refl
    differ_lem (suc zero) (suc zero) p q = refl
    differ_lem zero (suc (suc b)) p q = absurd (omega arith)
    differ_lem (suc zero) (suc (suc b)) p q = absurd (omega arith)
    differ_lem (suc (suc a)) b p q = absurd (omega arith)

pub bit_and_step : (x y : ℕ) → bit_and x y ≡ bit_and (x / 2) (y / 2) * 2 + min (x % 2) (y % 2)
bit_and_step zero y = simp bit_and-bitwise (omega arith)
bit_and_step (suc x) y = simp bit_and-bitwise (omega (arith, lowest_digit (λ t. 0) min x y))

pub bit_or_step : (x y : ℕ) → bit_or x y ≡ bit_or (x / 2) (y / 2) * 2 + max (x % 2) (y % 2)
bit_or_step zero y = simp bit_or-bitwise (omega arith)
bit_or_step (suc x) y = simp bit_or-bitwise (omega (arith, lowest_digit (λ t. t) max x y))
