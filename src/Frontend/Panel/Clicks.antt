-- ===== src/Frontend/Panel/Clicks.antt =====
-- src/frontend/sdl/main.c: where the buttons of the panel are, and what a word set on it does.
use emulator_pdp.Prelude.{
  ℕ, bit_and, ◌/◌, ◌+◌, ◌<◌, ltb, leb, u16, true, false, some, ◌≡◌, refl, arith, ==_refl,
}
use emulator_pdp.State.{Cpu}
use emulator_pdp.Monad.{ok, ◌>>=◌}
use emulator_pdp.Memory.{read_word, write_word}
use emulator_pdp.Frontend.Panel.{
  PanelState, Button, btn_index, btn_x, btn_y, btn_w, btn_h, button_at, press, panel_click, sr_y,
}

button_at-index :
    (b : Button) (dx dy : ℕ)
    → dx < btn_w
    → dy < btn_h
    → button_at (btn_x (btn_index b) + dx) (btn_y + dy) ≡ some b
unfolding button_at
button_at-index Button.btn_halt dx dy hx hy = ground arith
button_at-index Button.btn_cont dx dy hx hy = ground arith
button_at-index Button.btn_start dx dy hx hy = ground arith
button_at-index Button.btn_step dx dy hx hy = ground arith
button_at-index Button.btn_ladr dx dy hx hy = ground arith
button_at-index Button.btn_exam dx dy hx hy = ground arith
button_at-index Button.btn_dep dx dy hx hy = ground arith

-- A click at any point of a button, its left and upper edges included, is a press of that button.
pub panel_click-press :
    (b : Button) (dx dy : ℕ) (ps : PanelState) (c : Cpu)
    → dx < btn_w
    → dy < btn_h
    → panel_click (btn_x (btn_index b) + dx) (btn_y + dy) ps c ≡ press b ps c
unfolding panel_click
panel_click-press b dx dy ps c hx hy =
    let below : ltb (btn_y + dy) (sr_y + 18) ≡ false = ground arith in
    let under : leb sr_y (btn_y + dy) ≡ true = ground arith in
    rw (under, below, button_at-index b dx dy hx hy) refl

read_back : (m : ℕ → ℕ) (a v : ℕ) → read_word (write_word m a v) a ≡ v
unfolding read_word write_word
read_back m a v = rw (==_refl (bit_and a 4194303 / 2)) refl

-- A word deposited, the address loaded again from the switches, and the word examined: the data
-- lamps show the word that was deposited, the address register is past it, and the machine has the
-- word at that address and is otherwise as it was.
press-deposited :
    (ps : PanelState) (c : Cpu)
    → (press Button.btn_dep ps >>= λ p1.
          press Button.btn_ladr (record p1 { sr = ps.addr }) >>= λ p2. press Button.btn_exam p2)
        c
      ≡ ok
          (record { sr = ps.addr; addr = u16 (ps.addr + 2); data_word = ps.sr })
          (record c { mem = write_word c.mem ps.addr ps.sr })
unfolding press read_word write_word
press-deposited ps c = λ i.
    ok
      (record {
        sr = ps.addr;
        addr = u16 (ps.addr + 2);
        data_word = read_back c.mem ps.addr ps.sr i;
      })
      (record c { mem = write_word c.mem ps.addr ps.sr })
