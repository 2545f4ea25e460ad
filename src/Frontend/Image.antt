-- ===== src/Frontend/Image.antt =====
-- src/frontend/headless/main.c: `main`, which loads an image of directives, runs it, and dumps the state.
-- `fgets` and `sscanf` split the file: a line is the number of words that were read, and the
-- words. `strtoul` in base 8 and `strtoull` in base 10 are arguments.
pub mod Directives
use emulator_pdp.Prelude.{
  ℕ, zero, suc, ◌+◌, ◌*◌, bit_and, ltb, leb, ◌==◌, ◌&&◌, ◌||◌, if◌then◌else◌, u16, u32, u64, update,
  Bool, false, List, [], ◌∷◌, ◌++◌, length, same_bytes,
}
use emulator_pdp.State.{Cpu}
use emulator_pdp.Monad.{M, ok, fault}
use emulator_pdp.Memory.{read_word, write_word}
use emulator_pdp.Step.{pdp11_cpu_step}

pub record Line : Type 0 where
  pub n : ℕ
  pub op : List ℕ
  pub a : List ℕ
  pub b : List ℕ

pub record DumpRegion : Type 0 where
  pub addr : ℕ
  pub count : ℕ

abbrev pub max_dump_regions : ℕ
max_dump_regions = 32

-- The variables of the loop over the lines.
pub record Image : Type 0 where
  pub cpu : Cpu
  pub regions : List DumpRegion
  pub run_limit : ℕ

is_comment : List ℕ → Bool
is_comment [] = false
is_comment (c ∷ s) = c == b'#'

-- What a line asks for.
pub data Directive : Type 0 where
  skip word pc run dump warn : Directive

unfoldable pub directive_of : Line → Directive
unfolding is_comment
directive_of l =
    if ltb l.n 1 || is_comment l.op
    then skip
    else if same_bytes l.op (b'w' ∷ []) && l.n == 3
    then word
    else if same_bytes l.op (b'p' ∷ b'c' ∷ []) && leb 2 l.n
    then pc
    else if same_bytes l.op (b'r' ∷ b'u' ∷ b'n' ∷ []) && leb 2 l.n
    then run
    else if same_bytes l.op (b'd' ∷ b'u' ∷ b'm' ∷ b'p' ∷ []) && l.n == 3
    then dump
    else warn

unfoldable pub parse_octal : (List ℕ → ℕ) → List ℕ → ℕ
parse_octal strtoul_8 s = u32 (strtoul_8 s)

module _ (strtoul_8 strtoull_10 : List ℕ → ℕ) where
  unfoldable pub put_directive : Directive → Line → Image → Image
  unfolding parse_octal
  put_directive skip l im = im
  put_directive word l im =
      let c = im.cpu in
      record im {
        cpu = record c {
          mem = write_word c.mem (parse_octal strtoul_8 l.a) (u16 (parse_octal strtoul_8 l.b));
        };
      }
  put_directive pc l im =
      let c = im.cpu in
      record im { cpu = record c { r = update c.r 7 (u16 (parse_octal strtoul_8 l.a)) } }
  put_directive run l im = record im { run_limit = u64 (strtoull_10 l.a) }
  put_directive dump l im =
      if ltb (length im.regions) max_dump_regions
      then record im {
        regions =
            im.regions
            ++ (record { addr = parse_octal strtoul_8 l.a; count = parse_octal strtoul_8 l.b })
              ∷ [];
      }
      else im
  put_directive warn l im = im

  unfoldable pub load_lines : List Line → Image → Image
  unfolding put_directive directive_of
  load_lines [] im = im
  load_lines (l ∷ ls) im = load_lines ls (put_directive (directive_of l) l im)

-- The run, for the instructions that are left.
unfoldable pub run_image : ℕ → M (Unit {0})
run_image zero c = ok tt c
run_image (suc left) c =
    if c.halted
    then ok tt c
    else elim (pdp11_cpu_step c) [ ok _ c1 ↦ run_image left c1 | fault c1 ↦ fault c1 ]

-- A line `M` of the dump: the address as it is printed, and the word.
unfoldable pub dump_words : ℕ → ℕ → (ℕ → ℕ) → List (ℕ × ℕ)
dump_words addr zero m = []
dump_words addr (suc left) m =
    (bit_and addr 0o177777, read_word m addr) ∷ dump_words (u32 (addr + 2)) left m

unfoldable pub dump_regions : List DumpRegion → (ℕ → ℕ) → List (ℕ × ℕ)
unfolding dump_words
dump_regions [] m = []
dump_regions (d ∷ ds) m = dump_words d.addr d.count m ++ dump_regions ds m
