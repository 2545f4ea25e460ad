-- ===== src/Lib.antt =====
-- A model of a PDP-11 emulator, its core and its two front ends, and what is proved of it.
--
-- The program is one state record, pdp11_cpu, and the functions of src/core that read and write it.
-- A step of the processor takes a pending trap or interrupt, or fetches an instruction, resolves its
-- operands through the memory management, computes, and serves the events that came due. The
-- device controllers are register blocks of the I/O page: a write may start a command, which moves
-- data between memory and the attached image at once and schedules its completion; the completion
-- raises an interrupt request, which the arbitration of a later step grants. The front ends drive the
-- core: one runs steps for each frame of a window, shows what the console printed and feeds it the
-- keys typed, the other boots an image and answers its prompts from a script, or runs an image of
-- words and prints the state.
--
-- The files, and the sources they model (paths from the repository's root):
--   State, State/Devices, State/Models: pdp11_cpu and its parts (src/core/cpu/cpu.h and the headers
--     of the devices). An array is a function of its index.
--   Monad: cpu_bus_fault and its longjmp (src/core/cpu/cpu.c), as a result that keeps the state.
--   Memory: src/core/memory/memory.c. Cache: src/core/cache/cache.c.
--   Clk: src/core/clk/clk.c. Console: src/core/console/console.c.
--   Interrupt, Mmu, IoPage, Access, Stack, Operand, Alu, Events, and the children of Instr:
--     src/core/cpu/cpu.c, in the order of that file. Instr/Double and Instr/Single are the
--     instructions of two and of one operand, Instr/Flow branches, jumps and subroutines, Instr/Trap
--     traps and their return, Instr/Eis multiplication, division and shifts, Instr/Mode the moves
--     between modes, Instr/Misc the decoding. Instr/Fp11 is op_fp11 in parts: Operands, Codes,
--     Arith, Control and Conversion by the kind of instruction, and Dispatch the decoding.
--   Step: pdp11_cpu_step itself (src/core/cpu/cpu.c), with the fetch, the dispatch on the top four
--     bits, the handler of aborts and the time of the instruction.
--   Fp: src/core/fp/fp.c. Fp/Fraction the two-word fractions and the F_ macros, Fp/Round the
--     rounding and packing, Fp/Normal the normalisation, Fp/Add, Mul and Div the four operations
--     (MOD stands in Fp/Mul), Fp/Convert comparison and the integer conversions, Fp/Api the entry
--     points on 64-bit values.
--   Hash: pdp11_state_hash and fnv1a (src/core/cpu/cpu.c).
--   Model: the model table, creation and reset (src/core/cpu/cpu.c).
--   Timing: src/core/timing/timing.c.
--   Device/Rk11, Rl11, Rp11, Tm11 and Rx11: the files of those names in src/core/devices.
--     Device/Media has what they share.
--   Frontend/Terminal, Keyboard, Panel and Window: src/frontend/sdl/main.c. The screen of characters,
--     the queue of typed bytes, the switches and buttons, and the loop of `main` in rounds.
--   Frontend/Dialog, Boot and Image: src/frontend/headless/main.c. The script of a dialog, run_boot,
--     and the images that load_lines reads. Frontend/Options has the command lines of both.
--   Prelude and Bits: shared names, C integers, and the laws of the bit operations.
--   The children of a component's module hold its theorems, and Tests applies them to machines.
-- A function of the model has the name of the C function less its prefix pdp11_ or that of the
-- device; a part of a long function has a name of its own and stands before it.
--
-- Bounds: unsigned C integers are natural numbers with their wrap-around written out, and an int32_t
-- is given by its 32 bits. Most loops of the model are recursions on the rounds still to go, which
-- the code computes before the loop. Three have no such count and run on fuel. The loop that
-- normalises a fraction has 64 rounds, more than the 59 bits of a fraction. The loop that places
-- an integer in LDCIF has 32, the bits of the integer. The handler of aborts, which an abort of
-- its own trap enters again, has 9 rounds: the depth starts at 0 in each instruction, and above 8
-- the handler halts. That no routine of a trap writes the depth is seen in the source.
--
-- Not modelled: failed allocations and pdp11_cpu_destroy; what draws the window (render) and the calls
-- of SDL, whose events are the argument of a round of the loop and whose key codes are a parameter;
-- the reading of files, which are lists of bytes or of lines, and sscanf and strtoul, which are
-- parameters; what is printed for the reader, as the registers of a dump. The half pixels of the panel
-- are whole numbers. The console's sink is a callback that the front end supplies: the core keeps the
-- characters that it is called with, and the front ends take them after the step that printed them.
-- An attached image has no length of its own: an access past its end, where the code has no test,
-- reads and writes a cell that C does not define. An abort outside an instruction, in the trap of a
-- pending interrupt, jumps to the handler that the last instruction left, which C does not define:
-- there the step of the model ends as a fault. Where C leaves the order of two reads within one
-- expression open, as in the words of a floating-point operand, the model reads from left to right.
pub mod Prelude
pub mod Bits
pub mod State
pub mod Monad
pub mod Memory
pub mod Cache
pub mod Interrupt
pub mod Clk
pub mod Console
pub mod Mmu
pub mod Model
pub mod Device
pub mod IoPage
pub mod Access
pub mod Stack
pub mod Operand
pub mod Alu
pub mod Instr
pub mod Timing
pub mod Events
pub mod Fp
pub mod Frontend
pub mod Step
pub mod Hash
pub mod Tests
