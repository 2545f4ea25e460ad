-- ===== src/Frontend/Terminal/Screen.antt =====
-- src/frontend/sdl/main.c: the cursor and the cells of the terminal stay where they belong.
use emulator_pdp.Prelude.{
  ℕ, ◌+◌, ◌-◌, ◌&&◌, ◌≤◌, ◌<◌, ltb, leb, ◌==◌, ◌||◌, true, ◌≡◌, refl, ◌∙◌, arith, inl, inr,
  Bool-cases, bit_and, List, [], ◌∷◌,
}
use emulator_pdp.Frontend.Terminal.{
  VtTerm, tcols, trows, vt_init, vt_newline, vt_erase, vt_show, vt_tab, vt_line, vt_putc,
  console_sink,
}

-- The cursor is on the screen, and each cell of the screen holds a printable character.
pub record IsScreen (t : VtTerm) : Type 0 where
  pub column : t.cx < tcols
  pub row : t.cy < trows
  pub printable : (r c : ℕ) → r < trows → c < tcols → (32 ≤ t.cell r c) × (t.cell r c ≤ 126)

-- The cells outside the array of 25 rows of 80.
abbrev pub SameOutside : VtTerm → VtTerm → Type 0
SameOutside s t = (r c : ℕ) → (leb trows r || leb tcols c) ≡ true → t.cell r c ≡ s.cell r c

-- What an operation keeps.
pub record Keeps (s t : VtTerm) : Type 0 where
  pub screen : IsScreen t
  pub outside : SameOutside s t

vt_newline-Keeps : (t : VtTerm) → IsScreen t → Keeps t (vt_newline t)
unfolding vt_newline
vt_newline-Keeps t h = record {
  screen = record {
    column = ground arith;
    row = ground arith;
    printable = λ r c hr hc. ground (arith, h.printable r c hr hc, h.printable (r + 1) c);
  };
  outside = λ r c out. ground arith;
}

vt_erase-Keeps : (t : VtTerm) → IsScreen t → Keeps t (vt_erase t)
unfolding vt_erase
vt_erase-Keeps t h = record {
  screen = record {
    column = ground arith;
    row = ground arith;
    printable = λ r c hr hc. ground (arith, h.printable r c hr hc);
  };
  outside = λ r c out. ground arith;
}

vt_show-Keeps : (ch : ℕ) (t : VtTerm) → 32 ≤ ch → ch ≤ 126 → IsScreen t → Keeps t (vt_show ch t)
unfolding vt_show
vt_show-Keeps ch t low high h = record {
  screen = record {
    column = ground arith;
    row = ground arith;
    printable = λ r c hr hc. ground (arith, h.printable r c hr hc, h.printable (r + 1) c);
  };
  outside = λ r c out. ground arith;
}

Keeps-same : (t : VtTerm) → IsScreen t → Keeps t t
Keeps-same t h = record { screen = h; outside = λ r c out. refl }

vt_tab-lt : (x : ℕ) → vt_tab x < tcols
unfolding vt_tab
vt_tab-lt x = ground arith

-- A move of the cursor along its row.
Keeps-move : (t : VtTerm) (x : ℕ) → x < tcols → IsScreen t → Keeps t (record t { cx = x })
Keeps-move t x hx h = record {
  screen = record { column = hx; row = h.row; printable = h.printable };
  outside = λ r c out. refl;
}

vt_line-Keeps : (ch : ℕ) (t : VtTerm) → IsScreen t → Keeps t (vt_line ch t)
unfolding vt_line
vt_line-Keeps ch t h = elim (Bool-cases (ch == 0o10)) [
  | inl e ↦ elim (Bool-cases (ltb 0 t.cx)) [
    | inl f ↦ rw (e, f) (Keeps-move t (t.cx - 1) (omega (arith, h.column)) h)
    | inr f ↦ rw (e, f) (Keeps-same t h)
  ]
  | inr e0 ↦ elim (Bool-cases (ch == 0o11)) [
    | inl e ↦ rw (e0, e) (Keeps-move t (vt_tab t.cx) (vt_tab-lt t.cx) h)
    | inr e1 ↦ elim (Bool-cases (ch == 0o7 || (ltb ch 32 || ltb 126 ch))) [
      | inl e ↦ rw (e0, e1, e) (Keeps-same t h)
      | inr e ↦ rw (e0, e1, e) (vt_show-Keeps ch t (ground arith) (ground arith) h)
    ]
  ]
]

vt_putc-Keeps : (ch : ℕ) (t : VtTerm) → IsScreen t → Keeps t (vt_putc ch t)
unfolding vt_putc
vt_putc-Keeps ch t h = elim (Bool-cases (ch == b'#' && ltb 0 t.erase_pending)) [
  | inl e ↦ rw e (vt_erase-Keeps t h)
  | inr e0 ↦ elim (Bool-cases (ch == 0o15)) [
    | inl e ↦ rw (e0, e) (Keeps-move t 0 (omega arith) h)
    | inr e1 ↦ elim (Bool-cases (ch == 0o12)) [
      | inl e ↦ rw (e0, e1, e) (vt_newline-Keeps t h)
      | inr e2 ↦ rw (e0, e1, e2) (vt_line-Keeps ch t h)
    ]
  ]
]

console_sink-Keeps : (ch : ℕ) (t : VtTerm) → IsScreen t → Keeps t (console_sink ch t)
unfolding console_sink
console_sink-Keeps ch t h = vt_putc-Keeps (bit_and ch 0o177) t h

-- What the machine prints, the first character first.
unfoldable pub console_sinks : List ℕ → VtTerm → VtTerm
console_sinks [] t = t
console_sinks (ch ∷ chs) t = console_sinks chs (console_sink ch t)

-- Whatever the machine prints, the cursor stays on the screen, every cell of the screen holds a
-- printable character, and nothing outside the array of cells is written.
pub console_sinks-Keeps : (chs : List ℕ) (t : VtTerm) → IsScreen t → Keeps t (console_sinks chs t)
unfolding console_sinks
console_sinks-Keeps [] t h = Keeps-same t h
console_sinks-Keeps (ch ∷ chs) t h =
    let first = console_sink-Keeps ch t h in
    let rest = console_sinks-Keeps chs (console_sink ch t) first.screen in
    record {
      screen = rest.screen;
      outside = λ r c out. rest.outside r c out ∙ first.outside r c out;
    }

pub vt_init-IsScreen : (t : VtTerm) → IsScreen (vt_init t)
unfolding vt_init
vt_init-IsScreen t = record {
  column = omega arith;
  row = omega arith;
  printable = λ r c hr hc. ground arith;
}
