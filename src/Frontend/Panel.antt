-- ===== src/Frontend/Panel.antt =====
-- src/frontend/sdl/main.c: the console panel, its switches and its buttons. The coordinates of a click,
-- which the code keeps as floats, are whole numbers of half pixels here, where floats are exact.
pub mod Clicks
use emulator_pdp.Prelude.{
  ℕ, ◌+◌, ◌-◌, ◌*◌, ◌/◌, ◌^◌, bit_xor, ltb, leb, ◌==◌, ◌&&◌, not, if◌then◌else◌, u16, update, Bool,
  true, false, Option, none, some,
}
use emulator_pdp.State.{Cpu}
use emulator_pdp.Monad.{M, pure, ok, fault, gets, ◌>>=◌, ◌>>◌}
use emulator_pdp.Memory.{read_word, write_word}
use emulator_pdp.Step.{pdp11_cpu_step}

-- `data_word` is the field `data`.
pub record PanelState : Type 0 where
  pub sr : ℕ
  pub addr : ℕ
  pub data_word : ℕ

pub data Button : Type 0 where
  btn_halt btn_cont btn_start btn_step btn_ladr btn_exam btn_dep : Button

abbrev pub btn_index : Button → ℕ
btn_index btn_halt = 0
btn_index btn_cont = 1
btn_index btn_start = 2
btn_index btn_step = 3
btn_index btn_ladr = 4
btn_index btn_exam = 5
btn_index btn_dep = 6

-- The lengths of the layout, in half pixels.
abbrev pub margin : ℕ
margin = 2 * 8

abbrev pub panel_top : ℕ
panel_top = 2 * (8 * 2 + 25 * 8)

abbrev pub row_h : ℕ
row_h = 2 * 11

abbrev pub lamp_x0 : ℕ
lamp_x0 = 2 * (8 + 6 * 8)

abbrev pub lamp_pitch : ℕ
lamp_pitch = 2 * 9

abbrev pub btn_w : ℕ
btn_w = 2 * 44

abbrev pub btn_h : ℕ
btn_h = 2 * 11

abbrev pub btn_gap : ℕ
btn_gap = 2 * 6

-- `btn_rect`: the left and the top of a button.
unfoldable pub btn_x : ℕ → ℕ
btn_x i = margin + i * (btn_w + btn_gap)

abbrev pub btn_y : ℕ
btn_y = panel_top + 3 * row_h + 6

unfoldable pub in_button : ℕ → ℕ → ℕ → Bool
unfolding btn_x
in_button i lx ly =
    leb (btn_x i) lx && (ltb lx (btn_x i + btn_w) && (leb btn_y ly && ltb ly (btn_y + btn_h)))

-- The button under a click: the first of the loop.
unfoldable pub button_at : ℕ → ℕ → Option Button
unfolding in_button
button_at lx ly =
    if in_button 0 lx ly
    then some btn_halt
    else if in_button 1 lx ly
    then some btn_cont
    else if in_button 2 lx ly
    then some btn_start
    else if in_button 3 lx ly
    then some btn_step
    else if in_button 4 lx ly
    then some btn_ladr
    else if in_button 5 lx ly
    then some btn_exam
    else if in_button 6 lx ly
    then some btn_dep
    else none

-- The `switch` of `panel_click`.
unfoldable pub press : Button → PanelState → M PanelState
press btn_halt ps c = ok ps (record c { halted = true })
press btn_cont ps c = ok ps (record c { halted = false })
press btn_start ps c = ok ps (record c { r = update c.r 7 ps.addr; halted = false })
press btn_step ps c = elim (pdp11_cpu_step (record c { halted = false })) [
  | ok _ c1 ↦ ok ps (record c1 { halted = true })
  | fault c1 ↦ fault c1
]
press btn_ladr ps c = ok (record ps { addr = ps.sr }) c
press btn_exam ps c =
    ok (record ps { data_word = read_word c.mem ps.addr; addr = u16 (ps.addr + 2) }) c
press btn_dep ps c =
    ok (record ps { data_word = ps.sr; addr = u16 (ps.addr + 2) })
      (record c { mem = write_word c.mem ps.addr ps.sr })

abbrev pub sr_y : ℕ
sr_y = panel_top + 2 * row_h

-- A click in the row of the switch register.
unfoldable pub toggle : ℕ → PanelState → PanelState
toggle lx ps =
    let idx = (lx - lamp_x0) / lamp_pitch in
    if ltb idx 16 then record ps { sr = u16 (bit_xor ps.sr (2 ^ (15 - idx))) } else ps

unfoldable pub panel_click : ℕ → ℕ → PanelState → M PanelState
unfolding button_at press toggle
panel_click lx ly ps =
    if leb sr_y ly && (ltb ly (sr_y + 18) && leb lamp_x0 lx)
    then pure (toggle lx ps)
    else elim (button_at lx ly) [ some b ↦ press b ps | none ↦ pure ps ]

-- The middle of a button.
abbrev pub btn_cx : Button → ℕ
btn_cx b = margin + btn_index b * (btn_w + btn_gap) + btn_w / 2

abbrev pub btn_cy : ℕ
btn_cy = btn_y + btn_h / 2

-- `panel_selftest`, on the machine that it makes.
unfoldable pub panel_selftest : M ℕ
unfolding panel_click
panel_selftest = do
  let zero_panel : PanelState = record { sr = 0o1000; addr = 0; data_word = 0 }
  p1 ← panel_click (btn_cx btn_ladr) btn_cy zero_panel
  p2 ← panel_click (btn_cx btn_dep) btn_cy (record p1 { sr = 0o123456 })
  word ← gets (λ c. read_word c.mem 0o1000)
  p3 ← panel_click (btn_cx btn_exam) btn_cy (record p2 { addr = 0o1000 })
  p4 ← panel_click (btn_cx btn_ladr) btn_cy (record p3 { sr = 0o2000 })
  p5 ← panel_click (btn_cx btn_start) btn_cy p4
  started ← gets (λ c. c.r 7 == 0o2000 && not c.halted)
  p6 ← panel_click (btn_cx btn_halt) btn_cy p5
  stopped ← gets (λ c. c.halted)
  gets (λ _.
      if p1.addr == 0o1000
        && (word == 0o123456
            && (p2.addr == 0o1002
                && (p3.data_word == 0o123456 && (p3.addr == 0o1002 && (started && stopped)))))
      then 0
      else 1)
