-- ===== src/Tests/Devices.antt =====
-- The controllers' theorems at the machines of the tests.
use emulator_pdp.Prelude.{map, u8, tst, true, false, ◌≡◌, refl, arith, ◌∷◌, inr}
use emulator_pdp.Console.{console_tx_poll, dl11_done}
use emulator_pdp.Console.Transmission.{sent, console_tx_poll-sent}
use emulator_pdp.Device.Rk11
use emulator_pdp.Device.Rk11.Phases.{IsPhased}
use emulator_pdp.Device.Rk11.Registers.{write-IsPhased}
use emulator_pdp.Device.Rx11
use emulator_pdp.Device.Rx11.Bounds.{Keeps}
use emulator_pdp.Device.Rx11.Safety.{write-IsBounded, read-IsBounded}
use emulator_pdp.Device.Tm11.{write_record, space_reverse, space_forward, tap_len_at}
use emulator_pdp.Device.Tm11.Tape.{image}
use emulator_pdp.Device.Tm11.Records.{write_record-space_reverse}
use emulator_pdp.Device.Rx11.Sector.{read_bytes, write_bytes, rxcs_address, read_bytes-write_bytes}
use emulator_pdp.Memory
use emulator_pdp.Tests.Machine.{counting, resting, taping, plain, filling, waiting_for_disk}

console_tx_poll-sent_example :
    ((console_tx_poll (sent 0o101 2000000 plain)).printed ≡ 0o101 ∷ plain.printed)
    × ((console_tx_poll (sent 0o101 2000000 plain)).tto_busy ≡ false)
    × (tst (console_tx_poll (sent 0o101 2000000 plain)).tto_csr dl11_done ≡ true)
console_tx_poll-sent_example = console_tx_poll-sent 0o101 2000000 plain refl

-- GO with a read of the attached disk, from a controller that is at work.
write-IsPhased_example : IsPhased (Rk11.write 0o177404 5 waiting_for_disk).rk
write-IsPhased_example = write-IsPhased 0o177404 5 waiting_for_disk refl

-- The last byte of a fill.
write-IsBounded_example : Keeps filling (Rx11.write 0o177172 0o252 filling)
write-IsBounded_example = write-IsBounded 0o177172 0o252 filling (omega arith, inr (omega arith))

read-IsBounded_example : Keeps filling (Rx11.read 0o177172 filling).1
read-IsBounded_example = read-IsBounded 0o177172 filling (omega arith, inr (omega arith))

-- The place after the three bytes is cleared.
write_record-space_reverse_example :
    (image (write_record taping) 17 ≡ 0)
    × ((space_reverse (write_record taping)).tm.pos ≡ 10)
    × (tap_len_at
          (space_reverse (write_record taping)).tm
          (space_reverse (write_record taping)).tm.pos
        ≡ 3)
    × ((space_forward (space_reverse (write_record taping))).tm.pos ≡ (write_record taping).tm.pos)
write_record-space_reverse_example = write_record-space_reverse taping 17 (record {
  attached = refl;
  unprotected = refl;
  some_bytes = omega arith;
  room = omega arith;
  len = omega arith;
})

-- The values from 200 up to 327, of which the buffer has the low bytes.
read_bytes-write_bytes_example :
    read_bytes Rx11.rx_numby
      (Rx11.write rxcs_address 3 (write_bytes (counting 128) (Rx11.write rxcs_address 1 resting)))
    ≡ map u8 (counting 128)
read_bytes-write_bytes_example = read_bytes-write_bytes resting (counting 128) refl refl
