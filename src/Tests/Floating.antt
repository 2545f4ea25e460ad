-- ===== src/Tests/Floating.antt =====
-- The theorems on floating point, on numbers.
use emulator_pdp.Prelude.{◌^◌, ◌≡◌, refl, arith, true, false}
use emulator_pdp.Fp.Fraction.{Fpac, whole}
use emulator_pdp.Fp.Fraction.Whole.{IsFpac}
use emulator_pdp.Fp.Round.{Scaled}
use emulator_pdp.Fp.Normal.Ends.{IsNormalised, renormalise-IsNormalised}
use emulator_pdp.Fp.Add.{renormalise}
use emulator_pdp.Fp.Mul.{frac_mulfp11}
use emulator_pdp.Fp.Mul.Exact.{frac_mulfp11-exact}
use emulator_pdp.Fp.Div.{div_frac}
use emulator_pdp.Fp.Div.Exact.{div_frac-exact}
use emulator_pdp.Fp.Convert.{pdp11_fp_ldcif, stcfi_integer}
use emulator_pdp.Fp.Convert.RoundTrip.{stcfi_integer-pdp11_fp_ldcif}
use emulator_pdp.Fp.Api.{pdp11_fp_add}
use emulator_pdp.Fp.Api.Commute.{pdp11_fp_add_comm}

-- The fraction of 1, with and without guard bits.
abbrev one : Fpac
one = record { l = 0; h = 0x80_0000 }

abbrev guarded_one : Fpac
guarded_one = record { l = 0; h = 0x400_0000 }

abbrev mixed : Fpac
mixed = record { l = 5; h = 0x300 }

one-IsFpac : IsFpac one
one-IsFpac = record { low = omega arith; high = omega arith }

guarded_one-IsFpac : IsFpac guarded_one
guarded_one-IsFpac = record { low = omega arith; high = omega arith }

mixed-IsFpac : IsFpac mixed
mixed-IsFpac = record { low = omega arith; high = omega arith }

frac_mulfp11-exact_example : whole (frac_mulfp11 one one) ≡ 2 ^ 57
frac_mulfp11-exact_example =
    frac_mulfp11-exact one one one-IsFpac one-IsFpac (omega arith) (omega arith)

div_frac-exact_example : whole (div_frac true guarded_one guarded_one) ≡ 2 ^ 58
div_frac-exact_example =
    div_frac-exact true guarded_one guarded_one guarded_one-IsFpac guarded_one-IsFpac (omega arith)
      (omega arith)

-- The lowest bit alone is left of a difference.
abbrev lowest : Scaled
lowest = record { frac = record { l = 1; h = 0 }; exp = 200 }

lowest-IsFpac : IsFpac lowest.frac
lowest-IsFpac = record { low = omega arith; high = omega arith }

renormalise-IsNormalised_example : IsNormalised lowest (renormalise 0 lowest)
renormalise-IsNormalised_example =
    renormalise-IsNormalised 0 lowest lowest-IsFpac (omega arith) (omega arith)

stcfi_integer-pdp11_fp_ldcif_example :
    stcfi_integer (pdp11_fp_ldcif 0xffff_fff3 0o300) 0o300 ≡ record { dst = 0xffff_fff3; c = false }
stcfi_integer-pdp11_fp_ldcif_example =
    stcfi_integer-pdp11_fp_ldcif 0xffff_fff3 0o300 (omega arith) refl refl

pdp11_fp_add_comm_example :
    pdp11_fp_add 0x4080_0000_0000_0000 0xc100_0000_0000_0000 0o200
    ≡ pdp11_fp_add 0xc100_0000_0000_0000 0x4080_0000_0000_0000 0o200
pdp11_fp_add_comm_example = pdp11_fp_add_comm 0x4080_0000_0000_0000 0xc100_0000_0000_0000 0o200
