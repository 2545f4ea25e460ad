-- ===== src/Frontend/Window/Session.antt =====
-- src/frontend/sdl/main.c: what holds of the window in every session.
use emulator_pdp.Prelude.{
  ℕ, zero, suc, ◌+◌, ◌-◌, leb, ◌==◌, ◌&&◌, tst, if◌then◌else◌, Bool, true, false, Option, none,
  some, List, [], ◌∷◌, ◌∙◌, inl, inr, Bool-cases,
}
use mathlib.Core.List.{reverse}
use emulator_pdp.State.{Cpu}
use emulator_pdp.Monad.{Result, ok, fault}
use emulator_pdp.Console.{console_input, dl11_done}
use emulator_pdp.Step.{pdp11_cpu_step}
use emulator_pdp.Frontend.Terminal.{VtTerm}
use emulator_pdp.Frontend.Terminal.Screen.{IsScreen, SameOutside, console_sinks-Keeps}
use emulator_pdp.Frontend.Keyboard.{
  Kbd, Keycodes, kbd_push, kbd_pop, key_to_byte, key_down, text_input,
}
use emulator_pdp.Frontend.Keyboard.Queue.{IsKbd, Popped, kbd_push-IsKbd, kbd_pop-Popped}
use emulator_pdp.Frontend.Panel.{PanelState, panel_click}
use emulator_pdp.Frontend.Window.{
  Window, Event, handle_event, handle_events, type_byte, feed_key, displayed, counted, run_frame,
  frame, close_at, session,
}

key_byte-IsKbd :
    (o : Option ℕ) (k : Kbd) → IsKbd k → IsKbd (elim o [ some b ↦ kbd_push b k | none ↦ k ])
key_byte-IsKbd none k h = h
key_byte-IsKbd (some b) k h = kbd_push-IsKbd b k h

key_down-IsKbd :
    (codes : Keycodes) (ctrl : Bool) (key : ℕ) (k : Kbd)
    → IsKbd k
    → IsKbd (key_down codes ctrl key k)
unfolding key_down
key_down-IsKbd codes ctrl key k h = elim (Bool-cases (ctrl && (leb b'a' key && leb key b'z'))) [
  | inl e ↦ rw e (kbd_push-IsKbd (key + 1 - b'a') k h)
  | inr e ↦ rw e (key_byte-IsKbd (key_to_byte codes key) k h)
]

text_input-IsKbd : (bytes : List ℕ) (k : Kbd) → IsKbd k → IsKbd (text_input bytes k)
unfolding text_input
text_input-IsKbd [] k h = h
text_input-IsKbd (b ∷ bs) k h = text_input-IsKbd bs (kbd_push b k) (kbd_push-IsKbd b k h)

-- The queue's indices are within its buffer, the cursor is on the screen with printable characters in
-- all its cells, and the terminal has the cells outside its array that `t` had.
pub record IsWindow (t : VtTerm) (w : Window) : Type 0 where
  pub keys : IsKbd w.kbd
  pub screen : IsScreen w.term
  pub outside : SameOutside t w.term

-- So it is after a run, unless the run aborts.
abbrev pub Keeps : VtTerm → Result Window → Type 0
Keeps t (ok w c) = IsWindow t w
Keeps t (fault c) = Unit {0}

with_keys :
    (t : VtTerm) (w : Window) (k : Kbd) → IsKbd k → IsWindow t w → IsWindow t (record w { kbd = k })
with_keys t w k hk h = record { keys = hk; screen = h.screen; outside = h.outside }

displayed-IsWindow : (t : VtTerm) (w : Window) (c : Cpu) → IsWindow t w → IsWindow t (displayed w c)
displayed-IsWindow t w c h =
    let after = console_sinks-Keeps (reverse c.printed) w.term h.screen in
    record {
      keys = h.keys;
      screen = after.screen;
      outside = λ r k out. after.outside r k out ∙ h.outside r k out;
    }

with_panel :
    (t : VtTerm) (w : Window) (r : Result PanelState)
    → IsWindow t w
    → Keeps t
        (elim r [ ok ps c1 ↦ ok (displayed (record w { panel = ps }) c1) c1 | fault c1 ↦ fault c1 ])
with_panel t w (ok ps c1) h =
    displayed-IsWindow t (record w { panel = ps }) c1
      (record { keys = h.keys; screen = h.screen; outside = h.outside })
with_panel t w (fault c1) h = tt

handle_event-Keeps :
    (codes : Keycodes) (t : VtTerm) (e : Event) (w : Window) (c : Cpu)
    → IsWindow t w
    → Keeps t (handle_event codes e w c)
unfolding handle_event
handle_event-Keeps codes t Event.quit w c h = record {
  keys = h.keys;
  screen = h.screen;
  outside = h.outside;
}
handle_event-Keeps codes t (Event.key ctrl k) w c h =
    with_keys t w (key_down codes ctrl k w.kbd) (key_down-IsKbd codes ctrl k w.kbd h.keys) h
handle_event-Keeps codes t (Event.text bytes) w c h =
    with_keys t w (text_input bytes w.kbd) (text_input-IsKbd bytes w.kbd h.keys) h
handle_event-Keeps codes t (Event.click lx ly) w c h =
    with_panel t w (panel_click lx ly w.panel (record c { printed = [] })) h
handle_event-Keeps codes t Event.other w c h = h

-- What follows a run that keeps the window.
Keeps-then :
    (t : VtTerm) (r : Result Window) (f : Window → Cpu → Result Window)
    → Keeps t r
    → ((w : Window) (c : Cpu) → IsWindow t w → Keeps t (f w c))
    → Keeps t (elim r [ ok w c ↦ f w c | fault c ↦ fault c ])
Keeps-then t (ok w c) f h g = g w c h
Keeps-then t (fault c) f h g = tt

handle_events-Keeps :
    (codes : Keycodes) (t : VtTerm) (es : List Event) (w : Window) (c : Cpu)
    → IsWindow t w
    → Keeps t (handle_events codes es w c)
unfolding handle_events
handle_events-Keeps codes t [] w c h = h
handle_events-Keeps codes t (e ∷ es) w c h =
    Keeps-then t (handle_event codes e w c) (handle_events codes es)
      (handle_event-Keeps codes t e w c h) (handle_events-Keeps codes t es)

type_byte-IsWindow :
    (t : VtTerm) (b : ℕ) (k : Kbd) (w : Window)
    → IsKbd k
    → IsWindow t w
    → IsWindow t (type_byte b k w)
unfolding type_byte
type_byte-IsWindow t b k w hk h = elim (Bool-cases (b == b'#')) [
  | inl e ↦ rw e (record {
    keys = hk;
    screen = record {
      column = h.screen.column;
      row = h.screen.row;
      printable = h.screen.printable;
    };
    outside = h.outside;
  })
  | inr e ↦ rw e (with_keys t w k hk h)
]

fed :
    (t : VtTerm) (w : Window) (c : Cpu) (o : Option (ℕ × Kbd))
    → Popped w.kbd o
    → IsWindow t w
    → IsWindow t
        (elim o as (λ _. Window × Cpu) [
          | some (b, k) ↦ (type_byte b k w, console_input b c)
          | none ↦ (w, c)
        ]).0
fed t w c none p h = h
fed t w c (some (b, k)) (hk, p) h = type_byte-IsWindow t b k w hk h

feed_key-IsWindow : (t : VtTerm) (w : Window) (c : Cpu) → IsWindow t w → IsWindow t (feed_key w c).0
unfolding feed_key
feed_key-IsWindow t w c h = elim (Bool-cases (tst c.tti_csr dl11_done)) [
  | inl e ↦ simp e h
  | inr e ↦ simp e (fed t w c (kbd_pop w.kbd) (kbd_pop-Popped w.kbd h.keys) h)
]

Keeps-if :
    (t : VtTerm) (b : Bool) (r s : Result Window)
    → Keeps t r
    → Keeps t s
    → Keeps t (if b then r else s)
Keeps-if t true r s h g = h
Keeps-if t false r s h g = g

run_frame-Keeps :
    (n : ℕ) (t : VtTerm) (w : Window) (c : Cpu) → IsWindow t w → Keeps t (run_frame n w c)
unfolding run_frame
run_frame-Keeps zero t w c h = h
run_frame-Keeps (suc n) t w c h =
    let c1 = (feed_key w c).1 in
    Keeps-if t c.halted (ok w c) _ h
      (stepped (run_frame-Keeps n t) (pdp11_cpu_step (record c1 { printed = [] })))
  where
    stepped :
        ((w1 : Window) (c2 : Cpu) → IsWindow t w1 → Keeps t (run_frame n w1 c2))
        → (r : Result (Unit {0}))
        → Keeps t (elim r [
          | ok _ c2 ↦ run_frame n (counted (displayed (feed_key w c).0 c2)) c2
          | fault c2 ↦ fault c2
        ])
    stepped ih (ok _ c2) =
        let shown = displayed-IsWindow t (feed_key w c).0 c2 (feed_key-IsWindow t w c h) in
        ih (counted (displayed (feed_key w c).0 c2)) c2
          (record { keys = shown.keys; screen = shown.screen; outside = shown.outside })
    stepped ih (fault c2) = tt

frame-Keeps :
    (codes : Keycodes) (ips : ℕ) (es : List Event) (t : VtTerm) (w : Window) (c : Cpu)
    → IsWindow t w
    → Keeps t (frame codes ips es w c)
unfolding frame
frame-Keeps codes ips es t w c h =
    Keeps-then t (handle_events codes es w c) (run_frame ips) (handle_events-Keeps codes t es w c h)
      (run_frame-Keeps ips t)

close_at-IsWindow :
    (t : VtTerm) (limit : Option ℕ) (n : ℕ) (w : Window)
    → IsWindow t w
    → IsWindow t (close_at limit n w)
unfolding close_at
close_at-IsWindow t none n w h = h
close_at-IsWindow t (some limit) n w h = elim (Bool-cases (leb limit n)) [
  | inl e ↦ simp e (record { keys = h.keys; screen = h.screen; outside = h.outside })
  | inr e ↦ simp e h
]

-- In a session of any turns of the main loop that does not end in an abort, whatever the events are
-- and whatever the machine prints, the indices of the key queue stay within its 256 cells, the cursor stays on the screen,
-- the screen holds printable characters, and no cell outside the terminal's array is written.
pub session-Keeps :
    (codes : Keycodes) (ips : ℕ) (limit : Option ℕ) (n : ℕ) (turns : List (List Event)) (t : VtTerm)
    (w : Window) (c : Cpu)
    → IsWindow t w
    → Keeps t (session codes ips limit n turns w c)
unfolding session
session-Keeps codes ips limit n [] t w c h = h
session-Keeps codes ips limit n (es ∷ later) t w c h =
    Keeps-if t w.running _ (ok w c)
      (Keeps-then t (frame codes ips es w c)
        (λ w1 c1. session codes ips limit (n + 1) later (close_at limit (n + 1) w1) c1)
        (frame-Keeps codes ips es t w c h)
        (λ w1 c1 h1.
          session-Keeps codes ips limit (n + 1) later t (close_at limit (n + 1) w1) c1
            (close_at-IsWindow t limit (n + 1) w1 h1)))
      h
