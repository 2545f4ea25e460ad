-- ===== src/Frontend/Options.antt =====
-- src/frontend: the command lines of the two front ends. `argv[1]` and what follows is a list of strings;
-- a number stays the string that `strtoull`, `atol` or `atof` is given.
pub mod Lines
use emulator_pdp.Prelude.{
  ℕ, ◌==◌, ◌&&◌, if◌then◌else◌, Bool, true, false, Option, none, some, List, [], ◌∷◌, same_bytes,
}

abbrev pub boot_rk_flag : List ℕ
boot_rk_flag = b'-' ∷ b'-' ∷ b'b' ∷ b'o' ∷ b'o' ∷ b't' ∷ b'-' ∷ b'r' ∷ b'k' ∷ []

abbrev max_flag : List ℕ
max_flag = b'-' ∷ b'-' ∷ b'm' ∷ b'a' ∷ b'x' ∷ []

abbrev in_flag : List ℕ
in_flag = b'-' ∷ b'-' ∷ b'i' ∷ b'n' ∷ []

abbrev dialog_flag : List ℕ
dialog_flag = b'-' ∷ b'-' ∷ b'd' ∷ b'i' ∷ b'a' ∷ b'l' ∷ b'o' ∷ b'g' ∷ []

abbrev pub frames_flag : List ℕ
frames_flag = b'-' ∷ b'-' ∷ b'f' ∷ b'r' ∷ b'a' ∷ b'm' ∷ b'e' ∷ b's' ∷ []

abbrev pub scale_flag : List ℕ
scale_flag = b'-' ∷ b'-' ∷ b's' ∷ b'c' ∷ b'a' ∷ b'l' ∷ b'e' ∷ []

abbrev pub ips_flag : List ℕ
ips_flag = b'-' ∷ b'-' ∷ b'i' ∷ b'p' ∷ b's' ∷ []

abbrev pub selftest_flag : List ℕ
selftest_flag = b'-' ∷ b'-' ∷ b's' ∷ b'e' ∷ b'l' ∷ b'f' ∷ b't' ∷ b'e' ∷ b's' ∷ b't' ∷ []

-- The boot mode of the headless front end. `none` is a default.
pub record BootOptions : Type 0 where
  pub max_instr : Option (List ℕ)
  pub in_script : Option (List ℕ)
  pub dialog : Option (List ℕ)

abbrev pub boot_defaults : BootOptions
boot_defaults = record { max_instr = none; in_script = none; dialog = none }

unfoldable pub put_option : List ℕ → List ℕ → BootOptions → BootOptions
put_option flag value o =
    if same_bytes flag max_flag
    then record o { max_instr = some value }
    else if same_bytes flag in_flag
    then record o { in_script = some value }
    else if same_bytes flag dialog_flag
    then record o { dialog = some value }
    else o

unfoldable pub parse_boot : List (List ℕ) → BootOptions → BootOptions
unfolding put_option
parse_boot [] o = o
parse_boot (flag ∷ []) o = o
parse_boot (flag ∷ value ∷ rest) o = parse_boot rest (put_option flag value o)

-- What `main` of the headless front end does with its arguments.
pub data Mode : Type 0 where
  boot : List ℕ → BootOptions → Mode
  image : List ℕ → Mode
  usage : Mode

unfoldable pub headless_mode : List (List ℕ) → Mode
unfolding parse_boot
headless_mode [] = usage
headless_mode (path ∷ []) = image path
headless_mode (flag ∷ disk ∷ rest) =
    if same_bytes flag boot_rk_flag then boot disk (parse_boot rest boot_defaults) else usage

pub record WindowOptions : Type 0 where
  pub disk_path : Option (List ℕ)
  pub frames_limit : Option (List ℕ)
  pub scale : Option (List ℕ)
  pub ips : Option (List ℕ)
  pub selftest : Bool

abbrev pub window_defaults : WindowOptions
window_defaults = record {
  disk_path = none;
  frames_limit = none;
  scale = none;
  ips = none;
  selftest = false;
}

-- The option that an argument with a value after it sets; `none` where it takes no value.
unfoldable pub put_value : List ℕ → List ℕ → WindowOptions → Option WindowOptions
put_value flag value o =
    if same_bytes flag boot_rk_flag
    then some (record o { disk_path = some value })
    else if same_bytes flag frames_flag
    then some (record o { frames_limit = some value })
    else if same_bytes flag scale_flag
    then some (record o { scale = some value })
    else if same_bytes flag ips_flag
    then some (record o { ips = some value })
    else none

unfoldable pub put_flag : List ℕ → WindowOptions → WindowOptions
put_flag flag o = if same_bytes flag selftest_flag then record o { selftest = true } else o

unfoldable pub parse_window : List (List ℕ) → WindowOptions → WindowOptions
unfolding put_value put_flag
parse_window [] o = o
parse_window (flag ∷ []) o = put_flag flag o
parse_window (flag ∷ value ∷ rest) o = elim (put_value flag value o) [
  | some o1 ↦ parse_window rest o1
  | none ↦ parse_window (value ∷ rest) (put_flag flag o)
]
