-- ===== src/Frontend/Terminal/Text.antt =====
-- src/frontend/sdl/main.c: what a text and an erase leave on the terminal.
use mathlib.Core.Path.{fun_ext}
use emulator_pdp.Prelude.{
  ℕ, ◌+◌, ◌-◌, ◌≤◌, ◌<◌, ltb, leb, ◌==◌, ◌&&◌, ◌||◌, if◌then◌else◌, true, false, ◌≡◌, refl, ◌∙◌, ap,
  arith, List, [], ◌∷◌, length, get_or, get_or_later, get_or_first,
}
use emulator_pdp.Bits.{bit_and_low_of_lt}
use emulator_pdp.Frontend.Terminal.{
  VtTerm, tcols, set_cell, vt_show, vt_erase, vt_putc, console_sink,
}
use emulator_pdp.Frontend.Terminal.Screen.{console_sinks}

abbrev pub IsPrintable : ℕ → Type 0
IsPrintable ch = (32 ≤ ch) × (ch ≤ 126)

abbrev pub ArePrintable : List ℕ → Type 0
ArePrintable [] = Unit {0}
ArePrintable (ch ∷ chs) = IsPrintable ch × ArePrintable chs

abbrev shown : ℕ → VtTerm → VtTerm
shown ch t = record (set_cell t.cy t.cx ch t) { cx = t.cx + 1 }

vt_show-shown : (ch : ℕ) (t : VtTerm) → t.cx + 1 < tcols → vt_show ch t ≡ shown ch t
unfolding vt_show
vt_show-shown ch t h = let fits : leb tcols (t.cx + 1) ≡ false = ground arith in rw fits refl

vt_putc-shown :
    (ch : ℕ) (t : VtTerm)
    → IsPrintable ch
    → t.erase_pending ≡ 0
    → t.cx + 1 < tcols
    → vt_putc ch t ≡ shown ch t
unfolding vt_putc
vt_putc-shown ch t p none h =
    let e0 : (ch == b'#' && ltb 0 t.erase_pending) ≡ false = ground arith in
    let e1 : ch == 0o15 ≡ false = ground arith in
    let e2 : ch == 0o12 ≡ false = ground arith in
    let e3 : ch == 0o10 ≡ false = ground arith in
    let e4 : ch == 0o11 ≡ false = ground arith in
    let e5 : (ch == 0o7 || (ltb ch 32 || ltb 126 ch)) ≡ false = ground arith in
    simp (e0, e1, e2, e3, e4, e5) (vt_show-shown ch t h)

console_sink-shown :
    (ch : ℕ) (t : VtTerm)
    → IsPrintable ch
    → t.erase_pending ≡ 0
    → t.cx + 1 < tcols
    → console_sink ch t ≡ shown ch t
unfolding console_sink
console_sink-shown ch t p none h =
    rw (bit_and_low_of_lt 7 ch (omega arith)) (vt_putc-shown ch t p none h)

-- Where a text goes that starts at the cursor of `t`.
abbrev pub with_text : List ℕ → VtTerm → ℕ → ℕ → ℕ
with_text chs t r c =
    if r == t.cy && (leb t.cx c && ltb c (t.cx + length chs))
    then get_or chs (c - t.cx) b' '
    else t.cell r c

with_text_cons :
    (ch : ℕ) (chs : List ℕ) (t : VtTerm) (r c : ℕ)
    → with_text chs (shown ch t) r c ≡ with_text (ch ∷ chs) t r c
with_text_cons ch chs t r c =
    let place : c - (t.cx + 1) ≡ c - t.cx - 1 = omega arith in
    ground (arith, place, get_or_later ch chs (c - t.cx) b' ', get_or_first ch chs (c - t.cx) b' ')

-- A text of printable characters that ends before the last column of the row, printed while no
-- erase waits for its echo, stands at the cursor, and the cursor behind it. No other cell
-- changes.
pub console_sinks_text :
    (chs : List ℕ) (t : VtTerm)
    → ArePrintable chs
    → t.erase_pending ≡ 0
    → t.cx + length chs < tcols
    → (console_sinks chs t).cx ≡ t.cx + length chs
      × (console_sinks chs t).cy ≡ t.cy
      × ((r c : ℕ) → (console_sinks chs t).cell r c ≡ with_text chs t r c)
unfolding console_sinks
console_sinks_text [] t p none h = (omega arith, refl, λ r c. ground arith)
console_sinks_text (ch ∷ chs) t p none h =
    let first = console_sink-shown ch t p.0 none (omega arith) in
    let rest = console_sinks_text chs (shown ch t) p.1 none (omega arith) in
    let more : console_sinks (ch ∷ chs) t ≡ console_sinks chs (shown ch t) =
      ap (console_sinks chs) first in
    (
      ap (λ s. s.cx) more ∙ omega (arith, rest.0),
      ap (λ s. s.cy) more ∙ rest.1,
      λ r c. ap (λ s. s.cell r c) more ∙ rest.2 r c ∙ with_text_cons ch chs t r c,
    )

blanked :
    (ch : ℕ) (t : VtTerm) (r c : ℕ)
    → t.cell t.cy t.cx ≡ b' '
    → (if r == t.cy && c == (t.cx + 1 - 1) then b' ' else (shown ch t).cell r c) ≡ t.cell r c
blanked ch t r c blank = ground arith

erased : (t : VtTerm) → t.erase_pending ≡ 0 → ◌-◌ 1 1 ≡ t.erase_pending
erased t none = omega arith

vt_erase-shown :
    (ch : ℕ) (t : VtTerm)
    → t.erase_pending ≡ 0
    → t.cell t.cy t.cx ≡ b' '
    → vt_erase (record (shown ch t) { erase_pending = 1 }) ≡ t
unfolding vt_erase
vt_erase-shown ch t none blank =
    let back : ltb 0 (t.cx + 1) ≡ true = ground arith in
    let here : t.cx + 1 - 1 ≡ t.cx = omega arith in
    rw back (λ i. record {
      cell = fun_ext (λ r. fun_ext (λ c. blanked ch t r c blank)) i;
      cx = here i;
      cy = t.cy;
      erase_pending = erased t none i;
    })

-- A printable character in a blank cell that is not the last of its row, and then the echo of an
-- erase that was sent after it, leave the terminal as it was before the character.
pub console_sink-erase :
    (ch : ℕ) (t : VtTerm)
    → IsPrintable ch
    → t.erase_pending ≡ 0
    → t.cx + 1 < tcols
    → t.cell t.cy t.cx ≡ b' '
    → console_sink b'#' (record (console_sink ch t) { erase_pending = 1 }) ≡ t
unfolding console_sink vt_putc vt_erase
console_sink-erase ch t p none h blank =
    ap (λ s. vt_erase (record s { erase_pending = 1 })) (console_sink-shown ch t p none h)
    ∙ vt_erase-shown ch t none blank
