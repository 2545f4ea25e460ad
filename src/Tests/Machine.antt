-- ===== src/Tests/Machine.antt =====
-- A machine to run the tests on: as created, with requests, a mapped page and a busy disk.
use emulator_pdp.Prelude.{
  ℕ, zero, suc, List, [], ◌∷◌, ◌+◌, ◌*◌, ◌%◌, ◌^◌, true, false, some, if◌then◌else◌, ◌==◌,
}
use emulator_pdp.State.{Cpu}
use emulator_pdp.Model.{cpu_create}

-- Page 0 read-write and full, page 1 read-only, every other page absent; both based at 0100.
abbrev pub mapped : Cpu
mapped = record cpu_create {
  mmr0 = 1;
  mmr3 = 0;
  psw = 0;
  r = λ i. i * 3;
  cc_frozen = false;
  par = λ i. 0o100;
  pdr = λ i. if i == 0 then 0o77406 else if i == 1 then 0o77402 else 0;
  mem = λ i. i % 2 ^ 16;
}

-- Clock and console ask, and level 7 of the program requests; the priority is 0.
abbrev pub asking : Cpu
asking = record mapped { int_req = 0o3; pirq = 0o100000; mmr0 = 0 }

abbrev pub plain : Cpu
plain = record mapped { mmr0 = 0; clk_csr = 0o200; has_sink = true; time_ns = 5 }

-- The disk is due at 1000, and it is 10 now.
abbrev pub waiting_for_disk : Cpu
waiting_for_disk =
    let d = mapped.rk in
    record mapped {
      time_ns = 10;
      clk_tick_ns = 0;
      tto_busy = false;
      rk = record d { busy = true; done_ns = 1000; rkcs = 0o105; disk = some (λ i. i % 2 ^ 16) };
    }

-- The floppy is in the middle of a fill.
abbrev pub filling : Cpu
filling =
    let d = mapped.rx in
    record mapped {
      rx = record d { state = 4; bptr = 127; rxcs = 0o200; buf = λ i. 0; disk = some (λ i. 0) };
    }

-- WAIT idles the machine, and the clock may interrupt it.
abbrev pub idling : Cpu
idling = record plain {
  waiting = true;
  clk_csr = 0o100;
  clk_tick_ns = 16000000;
  clk_next_ns = 1000;
  int_req = 0;
  pirq = 0;
  r = λ i. if i == 6 then 1024 else i * 3;
  stklim = 0;
  servicing_stack_trap = false;
  in_trap_push = false;
}

-- A BEQ three words ahead, at 64, with Z set.
abbrev pub branching : Cpu
branching = record plain { mem = λ i. 0o1403; psw = 0o4; r = λ i. 64; int_req = 0; pirq = 0 }

-- In user mode, with the stacks at 512. The vector names the second register set.
abbrev pub trapping : Cpu
trapping = record plain {
  psw = 0o140000;
  r = λ i. if i == 6 then 1024 else i * 3;
  stackfile = λ i. 512;
  mem = λ i. if i == 15 then 0o4340 else 0o1000;
  stklim = 0;
  servicing_stack_trap = false;
  in_trap_push = false;
}

-- The tape stands at 10, and a record of 3 bytes is to be written from 0100.
abbrev pub taping : Cpu
taping =
    let d = mapped.tm in
    record mapped {
      tm = record d {
        tape = some (λ i. 255);
        tape_len = 100;
        pos = 10;
        wrp = false;
        cmd = 0;
        ca = 0o100;
        bc = 0o177775;
      };
    }

-- R1 has the address of a subroutine.
abbrev pub calling : Cpu
calling = record plain {
  psw = 0;
  r = λ i. if i == 6 then 1024 else if i == 1 then 0o4000 else i * 3;
  stklim = 0;
  in_trap_push = false;
}

abbrev pub counting : ℕ → List ℕ
counting zero = []
counting (suc left) = (left + 200) ∷ counting left

-- The floppy is idle.
abbrev pub resting : Cpu
resting = let d = mapped.rx in record mapped { rx = record d { state = 0; rxcs = 0o40 } }

-- Two words from 0100 on are to be written to the start of a disk of one word.
abbrev pub writing : Cpu
writing =
    let d = mapped.rk in
    record mapped {
      rk = record d {
        disk = some (λ i. 0);
        disk_words = 1;
        rkwc = 0o177776;
        rkda = 0;
        rkba = 0o100;
        rkcs = 0;
      };
    }
