-- ===== src/Frontend/Dialog/Steps.antt =====
-- src/frontend/headless/main.c: a dialog that is written out is parsed to its steps.
use emulator_pdp.Prelude.{
  ℕ, zero, suc, ◌+◌, ◌*◌, ◌/◌, ◌%◌, ◌≤◌, ◌<◌, ◌==◌, if◌then◌else◌, true, false, List, [], ◌∷◌, ◌++◌,
  ◌≡◌, refl, ap, ◌∙◌, arith, inl, inr, Bool-cases, length, take_all, ==_refl,
}
use emulator_pdp.Frontend.Dialog.{
  DialogStep, unescape, take_field, field_room, put_field, parse_fields, parse_dialog,
}
use emulator_pdp.Frontend.Dialog.Escapes.{AreBytes, escape, unescape-escape}

-- No bar, which cannot be written in a field.
abbrev pub HasNoBar : List ℕ → Type 0
HasNoBar [] = Unit {0}
HasNoBar (c ∷ s) = (c == b'|' ≡ false) × HasNoBar s

-- A string that fits in a field and in a buffer of `cap` bytes.
pub record IsField (cap : ℕ) (s : List ℕ) : Type 0 where
  pub bytes : AreBytes s
  pub no_bar : HasNoBar (escape s)
  pub fits_field : length (escape s) ≤ field_room
  pub fits_buffer : length s ≤ cap

abbrev pub AreSteps : List DialogStep → Type 0
AreSteps [] = Unit {0}
AreSteps (d ∷ ds) = IsField 63 d.expect × IsField 128 d.send × AreSteps ds

unfoldable pub print_dialog : List DialogStep → List ℕ
print_dialog [] = []
print_dialog (d ∷ ds) = escape d.expect ++ (b'|' ∷ (escape d.send ++ (b'|' ∷ print_dialog ds)))

take_field-bar :
    (f rest : List ℕ) (room : ℕ)
    → HasNoBar f
    → length f ≤ room
    → take_field room (f ++ (b'|' ∷ rest)) ≡ (f, rest)
unfolding take_field
take_field-bar [] rest zero h fits = refl
take_field-bar [] rest (suc room) h fits = refl
take_field-bar (c ∷ f) rest zero h fits = absurd (omega arith)
take_field-bar (c ∷ f) rest (suc room) h fits =
    rw (h.0, take_field-bar f rest room h.1 (omega arith)) refl

field_read : {cap : ℕ} {s : List ℕ} → IsField cap s → unescape (escape s) cap ≡ s
field_read {cap} {s} h = unescape-escape s cap h.bytes ∙ take_all cap s h.fits_buffer

parse_fields-field :
    (left n : ℕ) (f rest : List ℕ) (steps : ℕ → DialogStep)
    → HasNoBar f
    → length f ≤ field_room
    → parse_fields (suc left) n (f ++ (b'|' ∷ rest)) steps
      ≡ parse_fields left (n + 1) rest (put_field n f steps)
unfolding parse_fields
parse_fields-field left n [] rest steps h fits =
    ap (λ (r : List ℕ × List ℕ). parse_fields left (n + 1) r.1 (put_field n r.0 steps))
      (take_field-bar [] rest field_room h fits)
parse_fields-field left n (c ∷ f) rest steps h fits =
    ap (λ (r : List ℕ × List ℕ). parse_fields left (n + 1) r.1 (put_field n r.0 steps))
      (take_field-bar (c ∷ f) rest field_room h fits)

-- One step read: its two fields.
parse_fields-step :
    (left n : ℕ) (d : DialogStep) (rest : List ℕ) (steps : ℕ → DialogStep)
    → IsField 63 d.expect
    → IsField 128 d.send
    → parse_fields
        (suc (suc left))
        (2 * n)
        (escape d.expect ++ (b'|' ∷ (escape d.send ++ (b'|' ∷ rest))))
        steps
      ≡ parse_fields left
          (2 * (n + 1))
          rest
          (put_field (2 * n + 1) (escape d.send) (put_field (2 * n) (escape d.expect) steps))
parse_fields-step left n d rest steps he hs =
    parse_fields-field (suc left) (2 * n) (escape d.expect) (escape d.send ++ (b'|' ∷ rest)) steps
      he.no_bar he.fits_field
    ∙ parse_fields-field left (2 * n + 1) (escape d.send) rest
        (put_field (2 * n) (escape d.expect) steps) hs.no_bar hs.fits_field
    ∙ ap
        (λ m.
          parse_fields left m rest
            (put_field (2 * n + 1) (escape d.send) (put_field (2 * n) (escape d.expect) steps)))
        (omega arith)

put_field-even :
    (n : ℕ) (s : List ℕ) (steps : ℕ → DialogStep) (i : ℕ)
    → IsField 63 s
    → put_field (2 * n) (escape s) steps i
      ≡ (if n == i then record { expect = s; send = [] } else steps i)
unfolding put_field
put_field-even n s steps i h =
    let half : 2 * n / 2 ≡ n = omega arith in
    let even : 2 * n % 2 == 0 ≡ true = ground arith in rw (half, even, field_read h) refl

put_field-odd :
    (n : ℕ) (s : List ℕ) (steps : ℕ → DialogStep) (i : ℕ)
    → IsField 128 s
    → put_field (2 * n + 1) (escape s) steps i
      ≡ (if n == i then record { expect = (steps n).expect; send = s } else steps i)
unfolding put_field
put_field-odd n s steps i h =
    let half : (2 * n + 1) / 2 ≡ n = omega arith in
    let odd : (2 * n + 1) % 2 == 0 ≡ false = ground arith in rw (half, odd, field_read h) refl

-- What the two fields of a step leave in the array.
stored :
    (n : ℕ) (d : DialogStep) (steps : ℕ → DialogStep) (i : ℕ)
    → IsField 63 d.expect
    → IsField 128 d.send
    → put_field (2 * n + 1) (escape d.send) (put_field (2 * n) (escape d.expect) steps) i
      ≡ (if n == i then d else steps i)
stored n d steps i he hs =
    put_field-odd n d.send (put_field (2 * n) (escape d.expect) steps) i hs
    ∙ elim (Bool-cases (n == i)) [
      | inl e ↦ rw (e, put_field-even n d.expect steps n he, ==_refl n) refl
      | inr e ↦ rw (e, put_field-even n d.expect steps i he, e) refl
    ]

-- The steps from `n` on, in the array.
abbrev pub HoldsAt : ℕ → List DialogStep → (ℕ → DialogStep) → Type 0
HoldsAt n [] steps = Unit {0}
HoldsAt n (d ∷ ds) steps = (steps n ≡ d) × HoldsAt (n + 1) ds steps

-- The parse of these steps from `n` on: they stand in the array, and those before are kept.
record IsParse (n : ℕ) (ds : List DialogStep) (steps : ℕ → DialogStep) (r : ℕ × (ℕ → DialogStep))
    : Type 0 where
  count : r.0 ≡ 2 * (n + length ds)
  holds : HoldsAt n ds r.1
  kept : (i : ℕ) → i < n → r.1 i ≡ steps i

parse_fields-end : (left n : ℕ) (steps : ℕ → DialogStep) → parse_fields left n [] steps ≡ (n, steps)
unfolding parse_fields
parse_fields-end zero n steps = refl
parse_fields-end (suc left) n steps = refl

parse_fields-print :
    (ds : List DialogStep) (more n : ℕ) (steps : ℕ → DialogStep)
    → AreSteps ds
    → IsParse n ds steps (parse_fields (2 * (length ds + more)) (2 * n) (print_dialog ds) steps)
unfolding print_dialog
parse_fields-print [] more n steps h =
    rw (parse_fields-end (2 * (0 + more)) (2 * n) steps)
      (record { count = omega arith; holds = tt; kept = λ i lt. refl })
parse_fields-print (d ∷ ds) more n steps h =
    let after = put_field (2 * n + 1) (escape d.send) (put_field (2 * n) (escape d.expect) steps) in
    let next : 2 * (suc (length ds) + more) ≡ suc (suc (2 * (length ds + more))) = omega arith in
    let rest = parse_fields-print ds more (n + 1) after h.2 in
    let same =
      ap (λ left. parse_fields left (2 * n) (print_dialog (d ∷ ds)) steps) next
      ∙ parse_fields-step (2 * (length ds + more)) n d (print_dialog ds) steps h.0 h.1 in
    rw same (record {
      count = omega (arith, rest.count);
      holds = (
        rest.kept n (omega arith) ∙ stored n d steps n h.0 h.1 ∙ rw (==_refl n) refl,
        rest.holds,
      );
      kept = λ i lt. earlier i lt (rest.kept i (omega arith)) (stored n d steps i h.0 h.1);
    })
  where
    earlier :
        (i : ℕ) {x y : DialogStep}
        → i < n
        → x ≡ y
        → y ≡ (if n == i then d else steps i)
        → x ≡ steps i
    earlier i lt e f = let other : n == i ≡ false = ground arith in e ∙ f ∙ rw other refl

-- A dialog of at most `cap` steps, each string of which has no bar and fits in a field of 127
-- characters and in its buffer, is parsed from its text to the same steps in the same order.
pub parse_dialog-print_dialog :
    (ds : List DialogStep) (steps : ℕ → DialogStep) (more : ℕ)
    → AreSteps ds
    → ((parse_dialog (print_dialog ds) steps (length ds + more)).0 ≡ length ds)
      × HoldsAt 0 ds (parse_dialog (print_dialog ds) steps (length ds + more)).1
unfolding parse_dialog
parse_dialog-print_dialog ds steps more h =
    let r = parse_fields-print ds more 0 steps h in
    let count = r.count in let holds = r.holds in (omega (arith, count), holds)
