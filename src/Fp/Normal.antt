-- ===== src/Fp/Normal.antt =====
-- src/core/fp/fp.c: the normalisation of a guarded fraction in ADD and MOD. The loop runs on fuel,
-- and 64 is more than the places that a fraction has.
pub mod Ends
use emulator_pdp.Prelude.{ℕ, zero, suc, bit_and, ◌==◌, if◌then◌else◌, ◌<<<◌, sub32}
use emulator_pdp.Fp.Fraction.{Fpac, get_bit, f_lsh_1, f_lsh_k}
use emulator_pdp.Fp.Round.{Scaled}

abbrev pub fp_hidden : Fpac → ℕ
fp_hidden frac = get_bit frac.h 26

-- One round of the loop.
unfoldable pub shift_up : Scaled → Scaled
unfolding f_lsh_1
shift_up s = record { frac = f_lsh_1 s.frac; exp = sub32 s.exp 1 }

-- `while (GET_BIT(frac.h, FP_V_HB + FP_GUARD) == 0)`.
unfoldable pub normalise : ℕ → Scaled → Scaled
unfolding shift_up
normalise zero s = s
normalise (suc fuel) s =
    let rest = normalise fuel (shift_up s) in if fp_hidden s.frac == 0 then rest else s

-- A jump over n places, when none of the upper bits that `mask` names is set.
unfoldable pub coarse_shift : ℕ → ℕ → Scaled → Scaled
unfolding f_lsh_k
coarse_shift mask n s =
    if bit_and s.frac.h (mask <<< 3) == 0
    then record { frac = f_lsh_k n s.frac; exp = sub32 s.exp n }
    else s

-- The three jumps of ADD and MOD.
unfoldable pub coarse_shifts : Scaled → Scaled
unfolding coarse_shift
coarse_shifts s = coarse_shift 0xfc_0000 6 (coarse_shift 0xff_f000 12 (coarse_shift 0xff_ffff 24 s))

abbrev pub normal_fuel : ℕ
normal_fuel = 64
