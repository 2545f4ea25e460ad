-- ===== src/Tests/Storage.antt =====
-- The theorems of memory, cache and address translation at the machines of the tests.
use emulator_pdp.Prelude.{bit_and, ℕ, ◌^◌, ◌%◌, ◌*◌, true, false, ◌≡◌, refl, arith, ◌==◌, [], ◌∷◌}
use emulator_pdp.Monad.{state_of, cpu_bus_fault, aborted, value_or}
use emulator_pdp.Cache
use emulator_pdp.Cache.Laws.{IsCoherent, reset-IsCoherent, read-IsCoherent}
use emulator_pdp.Mmu.{mmu_relocate, apr_of, page_error}
use emulator_pdp.Mmu.Pages.{page_error-allows}
use emulator_pdp.Mmu.Addresses.{mmu_relocate-mapped}
use emulator_pdp.Mmu.Faults.{Reference, refer, after, first_abort_stays}
use emulator_pdp.Mmu.Aborts.{aborted-mmu_relocate}
use emulator_pdp.Tests.Machine.{mapped}

abbrev words : ℕ → ℕ
words i = i * 7 % 2 ^ 16

read-IsCoherent_example : IsCoherent (Cache.read 0o1000 Cache.reset).0
read-IsCoherent_example = read-IsCoherent 0o1000 Cache.reset reset-IsCoherent

page_error-allows_example : (page_error 0o77402 0o20100 true == 0) ≡ false
page_error-allows_example = page_error-allows 0o77402 0o20100 true

mmu_relocate-mapped_example :
    (aborted (mmu_relocate 0o20104 false 0 true mapped) ≡ false)
    × (value_or 0 (mmu_relocate 0o20104 false 0 true mapped) ≡ 0o10104)
unfolding page_error apr_of
mmu_relocate-mapped_example =
    mmu_relocate-mapped 0o20104 0 false true mapped refl (omega arith) refl

-- A write to the read-only page, then a reference to an absent one.
abbrev bad_write : Reference
bad_write = record { va = 0o20104; mode = 0; is_write = true; dspace = true }

abbrev bad_read : Reference
bad_read = record { va = 0o60000; mode = 0; is_write = false; dspace = true }

aborted-mmu_relocate_example :
    (aborted (mmu_relocate 0o20104 true 0 true mapped) ≡ true)
    × ((state_of (mmu_relocate 0o20104 true 0 true mapped)).abort_vec ≡ 0o250)
    × (bit_and (state_of (mmu_relocate 0o20104 true 0 true mapped)).mmr0 0o176 ≡ 2)
unfolding mmu_relocate page_error apr_of cpu_bus_fault
aborted-mmu_relocate_example =
    aborted-mmu_relocate 0o20104 0 true true mapped (omega arith) (omega arith)

first_abort_stays_example :
    (after (bad_read ∷ bad_write ∷ []) (refer bad_write mapped)).mmr0
    ≡ (refer bad_write mapped).mmr0
unfolding mmu_relocate cpu_bus_fault
first_abort_stays_example = first_abort_stays bad_write (bad_read ∷ bad_write ∷ []) mapped refl
