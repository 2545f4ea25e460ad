-- ===== src/Tests/Windows.antt =====
-- The theorems on the front ends, applied.
use emulator_pdp.Prelude.{
  take, if◌then◌else◌, tst, ℕ, ◌<◌, ◌+◌, ◌++◌, ◌≡◌, ◌↔◌, ◌-◌, refl, arith, true, some, List, [],
  ◌∷◌, take,
}
use emulator_pdp.Model.{cpu_create}
use emulator_pdp.Monad.{value_or}
use emulator_pdp.Memory.{read_word, write_word}
use emulator_pdp.Memory.Store.{store_all}
use emulator_pdp.Frontend.Terminal.{VtTerm, vt_init, console_sink}
use emulator_pdp.Frontend.Terminal.Screen.{vt_init-IsScreen, console_sinks}
use emulator_pdp.Frontend.Terminal.Text.{with_text, console_sinks_text, console_sink-erase}
use emulator_pdp.Frontend.Keyboard.{Kbd, Keycodes}
use emulator_pdp.Frontend.Keyboard.Queue.{KbdOp, push, pop, handed, queued, contents, handed-queued}
use emulator_pdp.Frontend.Dialog.{DialogStep, tail_ends_with, parse_dialog}
use emulator_pdp.Frontend.Dialog.Escapes.{escape}
use emulator_pdp.Frontend.Dialog.Tail.{tail_sinks, shown, tail_ends_with-stream}
use emulator_pdp.Frontend.Dialog.Steps.{HoldsAt, print_dialog, parse_dialog-print_dialog}
use emulator_pdp.Frontend.Panel.{panel_selftest, Button, btn_x, btn_y, press, panel_click}
use emulator_pdp.Frontend.Panel.Clicks.{panel_click-press}
use emulator_pdp.Console.{dl11_done}
use emulator_pdp.Console.Reception.{received}
use emulator_pdp.Frontend.Keyboard.Queue.{contents}
use emulator_pdp.Frontend.Boot.{Script, Boot, run_boot, feed}
use emulator_pdp.Frontend.Boot.Typing.{Accounts, typed, typed-Accounts}
use emulator_pdp.Frontend.Image.{Line, Image, load_lines}
use emulator_pdp.Frontend.Image.Directives.{all_deposits, all_dumps, load_lines-store_all}
use emulator_pdp.Frontend.Window.{Window, Event, session, run_frame, feed_key}
use emulator_pdp.Frontend.Window.Session.{Keeps, session-Keeps}
use emulator_pdp.Frontend.Window.Receiver
use emulator_pdp.Frontend.Window.Receiver.{keys_fed, keys_fed-Accounts}
use emulator_pdp.Frontend.Options.{WindowOptions, window_defaults, parse_window}
use emulator_pdp.Frontend.Options.Lines.{command_line, parse_window-command_line}
use emulator_pdp.Tests.Machine.{plain, branching}

abbrev screen : VtTerm
screen = record { cell = λ r c. 32; cx = 4; cy = 2; erase_pending = 0 }

-- The two characters of a prompt stand at the columns 4 and 5.
console_sinks_text_example :
    ((console_sinks (b'%' ∷ b' ' ∷ []) screen).cx ≡ 4 + 2)
    × ((console_sinks (b'%' ∷ b' ' ∷ []) screen).cy ≡ 2)
    × ((r c : ℕ)
        → (console_sinks (b'%' ∷ b' ' ∷ []) screen).cell r c
          ≡ with_text (b'%' ∷ b' ' ∷ []) screen r c)
console_sinks_text_example =
    console_sinks_text (b'%' ∷ b' ' ∷ []) screen (omega arith) refl (omega arith)

console_sink-erase_example :
    console_sink b'#' (record (console_sink b'x' screen) { erase_pending = 1 }) ≡ screen
console_sink-erase_example = console_sink-erase b'x' screen (omega arith) refl (omega arith) refl

-- The ring near its end.
abbrev ring : Kbd
ring = record { buf = λ i. i; head = 254; tail = 255 }

abbrev keys : List KbdOp
keys = push 7 ∷ push 8 ∷ pop ∷ pop ∷ pop ∷ pop ∷ []

handed-queued_example : handed keys ring ≡ queued keys (254 ∷ [])
unfolding contents
handed-queued_example =
    handed-queued keys ring (record { head_fits = omega arith; tail_fits = omega arith })

-- A login: the prompt, and the name with its end of line.
abbrev login : DialogStep
login = record { expect = b'n' ∷ b':' ∷ []; send = b'u' ∷ 0o15 ∷ [] }

abbrev no_steps : ℕ → DialogStep
no_steps i = record { expect = []; send = [] }

parse_dialog-print_dialog_example :
    ((parse_dialog (print_dialog (login ∷ [])) no_steps 16).0 ≡ 1)
    × HoldsAt 0 (login ∷ []) (parse_dialog (print_dialog (login ∷ [])) no_steps 16).1
unfolding escape
parse_dialog-print_dialog_example = parse_dialog-print_dialog (login ∷ []) no_steps 15 (
  record {
    bytes = omega arith;
    no_bar = (refl, (refl, tt));
    fits_field = omega arith;
    fits_buffer = omega arith;
  },
  record {
    bytes = omega arith;
    no_bar = (refl, (refl, (refl, tt)));
    fits_field = omega arith;
    fits_buffer = omega arith;
  },
  tt,
)

tail_ends_with-stream_example :
    (tail_ends_with (tail_sinks (b'a' ∷ 0o256 ∷ []) []) (b'.' ∷ []) ≡ true)
    ↔ ((0 < 1) × ((p : List ℕ) × (shown (b'a' ∷ 0o256 ∷ []) ≡ p ++ b'.' ∷ [])))
tail_ends_with-stream_example = tail_ends_with-stream (b'a' ∷ 0o256 ∷ []) (b'.' ∷ []) (omega arith)

panel_click-press_example :
    panel_click (btn_x 5 + 10) (btn_y + 3) (record { sr = 0; addr = 64; data_word = 0 }) plain
    ≡ press Button.btn_exam (record { sr = 0; addr = 64; data_word = 0 }) plain
panel_click-press_example =
    panel_click-press Button.btn_exam 10 3 (record { sr = 0; addr = 64; data_word = 0 }) plain
      (omega arith) (omega arith)

abbrev script : Script
script = record { nsteps = 1; steps = λ i. login; settle_ns = 5; key_ns = 5 }

abbrev booting : Boot
booting = record { tail = []; input = b'x' ∷ []; pend = []; cur = 0; next_key_ns = 0 }

typed-Accounts_example :
    Accounts script booting (typed 3 script booting branching) (run_boot 3 script booting branching)
    × (received branching (feed script booting branching).1
        ≡ (if tst branching.tti_csr dl11_done then [] else b'x' ∷ []))
typed-Accounts_example = typed-Accounts 3 script booting branching

-- A number of one octal digit.
abbrev digit : List ℕ → ℕ
digit [] = 0
digit (c ∷ s) = c - b'0'

abbrev lines : List Line
lines =
    record { n = 3; op = b'w' ∷ []; a = b'4' ∷ []; b = b'7' ∷ [] }
    ∷ record { n = 3; op = b'd' ∷ b'u' ∷ b'm' ∷ b'p' ∷ []; a = b'4' ∷ []; b = b'1' ∷ [] }
    ∷ []

abbrev empty_image : Image
empty_image = record { cpu = plain; regions = []; run_limit = 0 }

load_lines-store_all_example :
    ((load_lines digit digit lines empty_image).cpu.mem
      ≡ store_all (all_deposits digit lines) plain.mem)
    × ((load_lines digit digit lines empty_image).regions ≡ take 32 (all_dumps digit lines))
load_lines-store_all_example = load_lines-store_all digit digit lines empty_image refl

abbrev codes : Keycodes
codes = record {
  sdlk_return = 13;
  sdlk_kp_enter = 200;
  sdlk_backspace = 8;
  sdlk_delete = 127;
  sdlk_tab = 9;
  sdlk_escape = 27;
}

abbrev opened : Window
opened = record {
  running = true;
  term = vt_init screen;
  panel = record { sr = 0; addr = 0; data_word = 0 };
  kbd = ring;
  total = 0;
}

abbrev turns : List (List Event)
turns = (Event.key true b'd' ∷ Event.click 200 510 ∷ []) ∷ (Event.text (b'x' ∷ []) ∷ []) ∷ []

session-Keeps_example : Keeps screen (session codes 2 (some 5) 0 turns opened branching)
unfolding vt_init
session-Keeps_example = session-Keeps codes 2 (some 5) 0 turns screen opened branching (record {
  keys = record { head_fits = omega arith; tail_fits = omega arith };
  screen = vt_init-IsScreen screen;
  outside = λ r c h. ground arith;
})

abbrev options : WindowOptions
options = record window_defaults { disk_path = some (b'a' ∷ []); selftest = true }

parse_window-command_line_example : parse_window (command_line options) window_defaults ≡ options
parse_window-command_line_example = parse_window-command_line options

keys_fed-Accounts_example :
    Receiver.Accounts opened (keys_fed 3 opened branching) (run_frame 3 opened branching)
    × (received branching (feed_key opened branching).1
        ≡ (if tst branching.tti_csr dl11_done then [] else take 1 (contents opened.kbd)))
keys_fed-Accounts_example =
    keys_fed-Accounts 3 opened branching
      (record { head_fits = omega arith; tail_fits = omega arith })

panel_selftest_test : value_or 1 (panel_selftest cpu_create) ≡ 0
unfolding panel_selftest cpu_create read_word write_word
panel_selftest_test = refl
