-- ===== src/Frontend/Dialog/Escapes.antt =====
-- src/frontend/headless/main.c: what `unescape` undoes, and how much it writes.
use emulator_pdp.Prelude.{
  ℕ, zero, suc, ◌≤◌, ◌<◌, ◌^◌, ◌==◌, if◌then◌else◌, u8, false, List, [], ◌∷◌, ◌++◌, ◌≡◌, refl, ap,
  ◌∙◌, arith, inl, inr, Bool-cases, length, take,
}
use emulator_pdp.Frontend.Dialog.{unescape}

abbrev pub AreBytes : List ℕ → Type 0
AreBytes [] = Unit {0}
AreBytes (c ∷ s) = (c < 2 ^ 8) × AreBytes s

-- How a byte is written in a script.
abbrev escape_byte : ℕ → List ℕ
escape_byte c =
    if c == 0x5c
    then 0x5c ∷ 0x5c ∷ []
    else if c == 0o15
    then 0x5c ∷ b'r' ∷ []
    else if c == 0o12
    then 0x5c ∷ b'n' ∷ []
    else if c == 0o11
    then 0x5c ∷ b't' ∷ []
    else c ∷ []

unfoldable pub escape : List ℕ → List ℕ
escape [] = []
escape (c ∷ s) = escape_byte c ++ escape s

unescape-zero : (s : List ℕ) → unescape s 0 ≡ []
unfolding unescape
unescape-zero [] = refl
unescape-zero (c ∷ s) = refl

unescape-plain :
    (c : ℕ) (s : List ℕ) (cap : ℕ)
    → c == 0x5c ≡ false
    → unescape (c ∷ s) (suc cap) ≡ u8 c ∷ unescape s cap
unfolding unescape
unescape-plain c [] cap e = refl
unescape-plain c (d ∷ s) cap e = rw e refl

unescape-escape_byte :
    (c : ℕ) (s : List ℕ) (cap : ℕ)
    → c < 2 ^ 8
    → unescape (escape_byte c ++ s) (suc cap) ≡ c ∷ unescape s cap
unfolding unescape
unescape-escape_byte c s cap h = elim (Bool-cases (c == 0x5c)) [
  | inl e ↦ rw e (ap (λ b. b ∷ unescape s cap) (ground arith))
  | inr e0 ↦ elim (Bool-cases (c == 0o15)) [
    | inl e ↦ rw (e0, e) (ap (λ b. b ∷ unescape s cap) (ground arith))
    | inr e1 ↦ elim (Bool-cases (c == 0o12)) [
      | inl e ↦ rw (e0, e1, e) (ap (λ b. b ∷ unescape s cap) (ground arith))
      | inr e2 ↦ elim (Bool-cases (c == 0o11)) [
        | inl e ↦ rw (e0, e1, e2, e) (ap (λ b. b ∷ unescape s cap) (ground arith))
        | inr e3 ↦
            rw (e0, e1, e2, e3)
              (unescape-plain c s cap e0 ∙ ap (λ b. b ∷ unescape s cap) (omega arith))
      ]
    ]
  ]
]

-- A string of bytes written with escapes is read back as it was, cut to the room that there is.
pub unescape-escape : (s : List ℕ) (cap : ℕ) → AreBytes s → unescape (escape s) cap ≡ take cap s
unfolding unescape escape
unescape-escape [] zero h = refl
unescape-escape [] (suc cap) h = refl
unescape-escape (c ∷ s) zero h = unescape-zero (escape (c ∷ s))
unescape-escape (c ∷ s) (suc cap) h =
    unescape-escape_byte c (escape s) cap h.0 ∙ ap (◌∷◌ c) (unescape-escape s cap h.1)

-- Never more than the room of the buffer is written.
length-unescape : (s : List ℕ) (cap : ℕ) → length (unescape s cap) ≤ cap
unfolding unescape
length-unescape [] cap = omega arith
length-unescape (c ∷ s) zero = omega arith
length-unescape (c ∷ []) (suc cap) = omega arith
length-unescape (c ∷ d ∷ s) (suc cap) =
    ground (arith, length-unescape s cap, length-unescape (d ∷ s) cap)
