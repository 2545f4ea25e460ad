-- ===== src/Frontend/Boot.antt =====
-- src/frontend/headless/main.c: `run_boot`, which boots a disk and types at its console. The C library's
-- reading of files and of numbers is outside: a disk image is the list of its bytes.
pub mod Typing
use emulator_pdp.Prelude.{
  ℕ, zero, suc, ◌+◌, ◌-◌, ◌*◌, ◌/◌, bit_or, ltb, leb, ◌&&◌, tst, max, if◌then◌else◌, ◌<<<◌, u16,
  u32, u64, update, Bool, true, false, Option, none, some, List, [], ◌∷◌, length,
}
use mathlib.Core.List.{reverse}
use emulator_pdp.State.{Cpu}
use emulator_pdp.Monad.{M, ok, fault}
use emulator_pdp.Memory.{write_word}
use emulator_pdp.Model.{cpu_create}
use emulator_pdp.Console.{console_input, console_set_sink, dl11_done}
use emulator_pdp.Device.Rk11.{attach}
use emulator_pdp.Step.{pdp11_cpu_step}
use emulator_pdp.Frontend.Dialog.{DialogStep, tail_ends_with, unescape, parse_dialog}
use emulator_pdp.Frontend.Dialog.Tail.{tail_sinks}

abbrev pub boot_start : ℕ
boot_start = 0o2000

abbrev pub rk_boot_rom : List ℕ
rk_boot_rom =
    0o042113
    ∷ 0o012706
    ∷ boot_start
    ∷ 0o012700
    ∷ 0
    ∷ 0o010003
    ∷ 0o000303
    ∷ 0o006303
    ∷ 0o006303
    ∷ 0o006303
    ∷ 0o006303
    ∷ 0o006303
    ∷ 0o012701
    ∷ 0o177412
    ∷ 0o010311
    ∷ 0o005041
    ∷ 0o012741
    ∷ 0o177000
    ∷ 0o012741
    ∷ 0o000005
    ∷ 0o005002
    ∷ 0o005003
    ∷ 0o012704
    ∷ (boot_start + 0o20)
    ∷ 0o005005
    ∷ 0o105711
    ∷ 0o100376
    ∷ 0o105011
    ∷ 0o005007
    ∷ []

-- Words from an address on.
unfoldable pub deposit : ℕ → List ℕ → (ℕ → ℕ) → ℕ → ℕ
deposit addr [] m = m
deposit addr (w ∷ ws) m = deposit (u32 (addr + 2)) ws (write_word m addr w)

-- The words of an image, from the i-th on, at most `left` of them.
unfoldable pub load_words : ℕ → ℕ → List ℕ → (ℕ → ℕ) → ℕ → ℕ
load_words zero i bytes disk = disk
load_words (suc left) i [] disk = disk
load_words (suc left) i (lo ∷ []) disk = disk
load_words (suc left) i (lo ∷ hi ∷ bytes) disk =
    load_words left (i + 1) bytes (update disk i (u16 (bit_or lo (hi <<< 8))))

abbrev pub rk_words : ℕ
rk_words = 203 * 2 * 12 * 256

abbrev pub image_words : List ℕ → ℕ
image_words bytes = u32 (length bytes / 2)

-- The machine with the disk and the ROM, at its entry.
unfoldable pub boot_machine : List ℕ → Cpu
unfolding cpu_create console_set_sink attach deposit load_words
boot_machine bytes =
    let c =
      attach (some (load_words (image_words bytes) 0 bytes (λ i. 0)))
        (max rk_words (image_words bytes)) (console_set_sink true cpu_create) in
    record c { mem = deposit boot_start rk_boot_rom c.mem; r = update c.r 7 (u16 (boot_start + 2)) }

-- What the loop is given: the dialog and its times.
pub record Script : Type 0 where
  pub nsteps : ℕ
  pub steps : ℕ → DialogStep
  pub settle_ns : ℕ
  pub key_ns : ℕ

-- The variables of the loop. `input` and `pend` are what is still to be typed of them.
pub record Boot : Type 0 where
  pub tail : List ℕ
  pub input : List ℕ
  pub pend : List ℕ
  pub cur : ℕ
  pub next_key_ns : ℕ

-- With the receiver free: the character to hand over, if any.
unfoldable pub choose : Script → Boot → Cpu → Option ℕ × Boot
choose s b c = elim b.input [
  | ch ∷ rest ↦ (some ch, record b { input = rest })
  | [] ↦ elim b.pend [
    | ch ∷ rest ↦
        if leb b.next_key_ns c.time_ns
        then (some ch, record b { pend = rest; next_key_ns = u64 (c.time_ns + s.key_ns) })
        else (none, b)
    | [] ↦
        if ltb b.cur s.nsteps && tail_ends_with b.tail (s.steps b.cur).expect
        then (
          none,
          record b {
            pend = (s.steps b.cur).send;
            tail = [];
            cur = b.cur + 1;
            next_key_ns = u64 (c.time_ns + s.settle_ns);
          },
        )
        else (none, b)
  ]
]

unfoldable pub hand_over : Option ℕ → Cpu → Cpu
hand_over none c = c
hand_over (some ch) c = console_input ch c

-- The body of the loop after the step.
unfoldable pub feed : Script → Boot → Cpu → Boot × Cpu
unfolding choose hand_over
feed s b c =
    if tst c.tti_csr dl11_done
    then (b, c)
    else (let (ch, b1) = choose s b c in (b1, hand_over ch c))

-- What the step printed goes to the sink, the first character first.
abbrev pub heard : Boot → Cpu → Boot
heard b c = record b { tail = tail_sinks (reverse c.printed) b.tail }

-- The loop, for the instructions that are left.
unfoldable pub run_boot : ℕ → Script → Boot → M Boot
unfolding feed
run_boot zero s b c = ok b c
run_boot (suc left) s b c =
    if c.halted then ok b c else elim (pdp11_cpu_step (record c { printed = [] })) [
      | ok _ c1 ↦ (let (b1, c2) = feed s (heard b c1) c1 in run_boot left s b1 c2)
      | fault c1 ↦ fault c1
    ]

-- The input of the loop. `steps` is the array before the dialog is parsed, the times are those of
-- the environment where it sets them.
unfoldable pub start_boot : Option (List ℕ) → Boot
start_boot in_script = record {
  tail = [];
  input = elim in_script [ none ↦ [] | some s ↦ unescape s 512 ];
  pend = [];
  cur = 0;
  next_key_ns = 0;
}

abbrev pub max_steps : ℕ
max_steps = 16

unfoldable pub script_of : Option (List ℕ) → Option ℕ → Option ℕ → (ℕ → DialogStep) → Script
script_of dialog_spec settle key steps =
    let parsed : ℕ × (ℕ → DialogStep) = elim dialog_spec [
      | none ↦ (0, steps)
      | some spec ↦ parse_dialog spec steps max_steps
    ] in
    record {
      nsteps = parsed.0;
      steps = parsed.1;
      settle_ns = elim settle [ none ↦ 2000000000 | some ns ↦ ns ];
      key_ns = elim key [ none ↦ 100000000 | some ns ↦ ns ];
    }
