-- ===== src/Frontend/Window.antt =====
-- src/frontend/sdl/main.c: `main` of the window, the events and a frame of instructions. What SDL reports
-- is a list of events. Drawing, delays and the quitting of SDL are outside.
pub mod Receiver
pub mod Session
use emulator_pdp.Prelude.{
  ℕ, zero, suc, ◌+◌, ◌^◌, ◌==◌, ◌&&◌, leb, tst, if◌then◌else◌, u64, update, Bool, true, false,
  Option, none, some, List, [], ◌∷◌, map, max,
}
use mathlib.Core.List.{reverse}
use emulator_pdp.State.{Cpu}
use emulator_pdp.Monad.{M, Result, ok, fault}
use emulator_pdp.Memory.{write_byte}
use emulator_pdp.Model.{cpu_create}
use emulator_pdp.Console.{console_input, console_set_sink, dl11_done}
use emulator_pdp.Step.{pdp11_cpu_step}
use emulator_pdp.Frontend.Terminal.{VtTerm}
use emulator_pdp.Frontend.Terminal.Screen.{console_sinks}
use emulator_pdp.Frontend.Keyboard.{Kbd, Keycodes, kbd_pop, key_down, text_input}
use emulator_pdp.Frontend.Panel.{PanelState, panel_click}
use emulator_pdp.Frontend.Boot.{deposit}

abbrev pub demo_start : ℕ
demo_start = 0o1000

abbrev pub demo_rom : List ℕ
demo_rom =
    0o012701 ∷ 0o001040 ∷ 0o112100 ∷ 0o001406 ∷ 0o105737 ∷ 0o177564 ∷ 0o100375 ∷ 0o110037 ∷ 0o177566
    ∷ 0o000770 ∷ 0 ∷ []

-- "PDP-11/70 -- SDL console" and the end of the line.
abbrev pub demo_msg : List ℕ
demo_msg =
    b'P' ∷ b'D' ∷ b'P' ∷ b'-' ∷ b'1' ∷ b'1' ∷ b'/' ∷ b'7' ∷ b'0' ∷ b' ' ∷ b'-' ∷ b'-' ∷ b' ' ∷ b'S'
    ∷ b'D' ∷ b'L' ∷ b' ' ∷ b'c' ∷ b'o' ∷ b'n' ∷ b's' ∷ b'o' ∷ b'l' ∷ b'e' ∷ 0o15 ∷ 0o12 ∷ []

unfoldable pub deposit_bytes : ℕ → List ℕ → (ℕ → ℕ) → ℕ → ℕ
deposit_bytes addr [] m = m
deposit_bytes addr (b ∷ bs) m = deposit_bytes (addr + 1) bs (write_byte m addr b)

-- The machine without a disk.
unfoldable pub demo_machine : Cpu
unfolding deposit deposit_bytes cpu_create console_set_sink
demo_machine =
    let c = console_set_sink true cpu_create in
    record c {
      mem = deposit_bytes 0o1040 demo_msg (deposit demo_start demo_rom c.mem);
      r = update c.r 7 demo_start;
    }

-- The variables of the loop.
pub record Window : Type 0 where
  pub running : Bool
  pub term : VtTerm
  pub panel : PanelState
  pub kbd : Kbd
  pub total : ℕ

-- `SDL_Event`. A click comes in the coordinates of the panel.
pub data Event : Type 0 where
  quit : Event
  key : Bool → ℕ → Event
  text : List ℕ → Event
  click : ℕ → ℕ → Event
  other : Event

-- What the machine printed goes to the terminal.
abbrev pub displayed : Window → Cpu → Window
displayed w c = record w { term = console_sinks (reverse c.printed) w.term }

unfoldable pub handle_event : Keycodes → Event → Window → M Window
handle_event codes quit w c = ok (record w { running = false }) c
handle_event codes (key ctrl k) w c = ok (record w { kbd = key_down codes ctrl k w.kbd }) c
handle_event codes (text bytes) w c = ok (record w { kbd = text_input bytes w.kbd }) c
handle_event codes (click lx ly) w c =
    elim (panel_click lx ly w.panel (record c { printed = [] })) [
      | ok ps c1 ↦ ok (displayed (record w { panel = ps }) c1) c1
      | fault c1 ↦ fault c1
    ]
handle_event codes other w c = ok w c

unfoldable pub handle_events : Keycodes → List Event → Window → M Window
unfolding handle_event
handle_events codes [] w c = ok w c
handle_events codes (e ∷ es) w c = elim (handle_event codes e w c) [
  | ok w1 c1 ↦ handle_events codes es w1 c1
  | fault c1 ↦ fault c1
]

-- A byte of the queue that is handed to the receiver. An erase arms the terminal.
unfoldable pub type_byte : ℕ → Kbd → Window → Window
type_byte b k w =
    let t = w.term in
    let armed : VtTerm =
      if b == b'#' then record t { erase_pending = t.erase_pending + 1 } else t in
    record w { term = armed; kbd = k }

-- The next byte, the moment that the receiver is free.
unfoldable pub feed_key : Window → Cpu → Window × Cpu
unfolding kbd_pop type_byte
feed_key w c =
    if tst c.tti_csr dl11_done
    then (w, c)
    else elim (kbd_pop w.kbd) [ some (b, k) ↦ (type_byte b k w, console_input b c) | none ↦ (w, c) ]

abbrev pub counted : Window → Window
counted w = record w { total = u64 (w.total + 1) }

-- The instructions of a frame that are left.
unfoldable pub run_frame : ℕ → Window → M Window
unfolding feed_key
run_frame zero w c = ok w c
run_frame (suc left) w c =
    let fed = feed_key w c in
    if c.halted
    then ok w c
    else (let c1 = fed.1 in
        elim (pdp11_cpu_step (record c1 { printed = [] })) [
          | ok _ c2 ↦ run_frame left (counted (displayed fed.0 c2)) c2
          | fault c2 ↦ fault c2
        ])

-- A turn of the loop: the events, and then the frame.
unfoldable pub frame : Keycodes → ℕ → List Event → Window → M Window
unfolding handle_events run_frame
frame codes ips events w c = elim (handle_events codes events w c) [
  | ok w1 c1 ↦ run_frame ips w1 c1
  | fault c1 ↦ fault c1
]

-- After the n-th frame, with the number of frames to show, if there is one.
unfoldable pub close_at : Option ℕ → ℕ → Window → Window
close_at none n w = w
close_at (some limit) n w = if leb limit n then record w { running = false } else w

-- The main loop, on the events that each of its turns finds.
unfoldable pub session : Keycodes → ℕ → Option ℕ → ℕ → List (List Event) → Window → M Window
unfolding frame close_at
session codes ips limit n [] w c = ok w c
session codes ips limit n (events ∷ later) w c =
    if w.running
    then elim (frame codes ips events w c) [
      | ok w1 c1 ↦ session codes ips limit (n + 1) later (close_at limit (n + 1) w1) c1
      | fault c1 ↦ fault c1
    ]
    else ok w c
