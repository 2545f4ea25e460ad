-- ===== src/Tests/Processor.antt =====
-- The processor's theorems at the machines of the tests.
use emulator_pdp.Prelude.{field, true, false, ◌≡◌, refl, arith}
use emulator_pdp.Interrupt.{highest_pir_level}
use emulator_pdp.Events.{arbitrate, next_event_ns, service_due_events}
use emulator_pdp.Events.Grants.{IsGranted, arbitrate-IsGranted}
use emulator_pdp.Events.Due.{service_due_events-early}
use emulator_pdp.Alu.{alu_add, alu_sub, flag_set, psw_c, psw_v, psw_z, psw_n}
use emulator_pdp.Alu.Sums.{alu_add-codes, alu_sub-codes}
use emulator_pdp.Model.{cpu_create}
use emulator_pdp.Instr.Flow.{branch_taken}
use emulator_pdp.Instr.Flow.Branches.{branch_taken-alu_sub, compared}
use emulator_pdp.Tests.Machine.{mapped, asking, waiting_for_disk}

arbitrate-IsGranted_example :
    IsGranted 0o3 (field asking.psw 5 3) (highest_pir_level asking.pirq) (arbitrate asking)
arbitrate-IsGranted_example = arbitrate-IsGranted asking

service_due_events-early_example : service_due_events waiting_for_disk ≡ waiting_for_disk
unfolding next_event_ns cpu_create
service_due_events-early_example = service_due_events-early waiting_for_disk (omega arith)

-- 32767 + 1 overflows without a carry.
alu_add-codes_example :
    ((alu_add 0o77777 1 false mapped).0 ≡ 0o100000)
    × (flag_set psw_c (alu_add 0o77777 1 false mapped).1 ≡ false)
    × (flag_set psw_v (alu_add 0o77777 1 false mapped).1 ≡ true)
    × (flag_set psw_z (alu_add 0o77777 1 false mapped).1 ≡ false)
    × (flag_set psw_n (alu_add 0o77777 1 false mapped).1 ≡ true)
alu_add-codes_example = alu_add-codes 0o77777 1 false mapped (omega arith) (omega arith) refl

-- On bytes, 3 - 200 borrows, and its signed difference 59 fits.
alu_sub-codes_example :
    ((alu_sub 3 200 true mapped).0 ≡ 59)
    × (flag_set psw_c (alu_sub 3 200 true mapped).1 ≡ true)
    × (flag_set psw_v (alu_sub 3 200 true mapped).1 ≡ false)
    × (flag_set psw_z (alu_sub 3 200 true mapped).1 ≡ false)
    × (flag_set psw_n (alu_sub 3 200 true mapped).1 ≡ false)
alu_sub-codes_example = alu_sub-codes 3 200 true mapped (omega arith) (omega arith) refl

-- 0100000 is below 1 as a signed number and above it as an unsigned one.
branch_taken-alu_sub_example :
    (branch_taken (compared 0o100000 1 false mapped) 0o5 ≡ true)
    × (branch_taken (compared 0o100000 1 false mapped) 0o4 ≡ false)
    × (branch_taken (compared 0o100000 1 false mapped) 0o7 ≡ true)
    × (branch_taken (compared 0o100000 1 false mapped) 0o6 ≡ false)
    × (branch_taken (compared 0o100000 1 false mapped) 0o3 ≡ false)
    × (branch_taken (compared 0o100000 1 false mapped) 0o2 ≡ true)
    × (branch_taken (compared 0o100000 1 false mapped) 0o207 ≡ false)
    × (branch_taken (compared 0o100000 1 false mapped) 0o206 ≡ true)
    × (branch_taken (compared 0o100000 1 false mapped) 0o203 ≡ false)
    × (branch_taken (compared 0o100000 1 false mapped) 0o202 ≡ true)
branch_taken-alu_sub_example =
    branch_taken-alu_sub 0o100000 1 false mapped (omega arith) (omega arith) refl
