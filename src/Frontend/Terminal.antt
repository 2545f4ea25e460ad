-- ===== src/Frontend/Terminal.antt =====
-- src/frontend/sdl/main.c: the text terminal, `vt_term`. A character is the 7 bits that `console_sink`
-- passes on, and the array of cells a function of the row and the column.
pub mod Screen
pub mod Text
use emulator_pdp.Prelude.{ℕ, ◌+◌, ◌-◌, bit_and, and_not, ltb, leb, ◌==◌, ◌&&◌, ◌||◌, if◌then◌else◌}

abbrev pub tcols : ℕ
tcols = 80

abbrev pub trows : ℕ
trows = 25

pub record VtTerm : Type 0 where
  pub cell : ℕ → ℕ → ℕ
  pub cx : ℕ
  pub cy : ℕ
  pub erase_pending : ℕ

-- The array outside its bounds is kept: C has no cells there.
unfoldable pub vt_init : VtTerm → VtTerm
vt_init t = record {
  cell = λ r c. if ltb r trows && ltb c tcols then b' ' else t.cell r c;
  cx = 0;
  cy = 0;
  erase_pending = 0;
}

abbrev pub set_cell : ℕ → ℕ → ℕ → VtTerm → VtTerm
set_cell row col ch t = record t { cell = λ r c. if r == row && c == col then ch else t.cell r c }

unfoldable pub vt_scroll : VtTerm → VtTerm
vt_scroll t = record t {
  cell = λ r c.
      if ltb c tcols && ltb r (trows - 1)
      then t.cell (r + 1) c
      else if ltb c tcols && r == trows - 1
      then b' '
      else t.cell r c;
}

unfoldable pub vt_newline : VtTerm → VtTerm
unfolding vt_scroll
vt_newline t =
    if leb trows (t.cy + 1)
    then vt_scroll (record t { cy = trows - 1 })
    else record t { cy = t.cy + 1 }

-- The echo of an erase that was sent.
unfoldable pub vt_erase : VtTerm → VtTerm
vt_erase t =
    let t1 = record t { erase_pending = t.erase_pending - 1 } in
    if ltb 0 t.cx then set_cell t.cy (t.cx - 1) b' ' (record t1 { cx = t.cx - 1 }) else t1

-- A character that is shown.
unfoldable pub vt_show : ℕ → VtTerm → VtTerm
unfolding vt_newline
vt_show c t =
    let t1 = set_cell t.cy t.cx c t in
    if leb tcols (t.cx + 1) then vt_newline (record t1 { cx = 0 }) else record t1 { cx = t.cx + 1 }

-- The column after a tab.
unfoldable pub vt_tab : ℕ → ℕ
vt_tab x = let next = and_not (x + 8) 7 in if leb tcols next then tcols - 1 else next

-- The characters that stay in the row, and those that are shown. The bell and what is not printable
-- do nothing.
unfoldable pub vt_line : ℕ → VtTerm → VtTerm
unfolding vt_tab vt_show
vt_line c t =
    if c == 0o10
    then (if ltb 0 t.cx then record t { cx = t.cx - 1 } else t)
    else if c == 0o11
    then record t { cx = vt_tab t.cx }
    else if c == 0o7 || (ltb c 32 || ltb 126 c)
    then t
    else vt_show c t

unfoldable pub vt_putc : ℕ → VtTerm → VtTerm
unfolding vt_newline vt_erase vt_line
vt_putc c t =
    if c == b'#' && ltb 0 t.erase_pending
    then vt_erase t
    else if c == 0o15
    then record t { cx = 0 }
    else if c == 0o12
    then vt_newline t
    else vt_line c t

unfoldable pub console_sink : ℕ → VtTerm → VtTerm
unfolding vt_putc
console_sink ch t = vt_putc (bit_and ch 0o177) t
