-- ===== src/Frontend/Dialog.antt =====
-- src/frontend/headless/main.c: the tail of the console's output, the escapes of a script, and the
-- dialog. A C string is the list of its bytes, without the NUL.
pub mod Tail
pub mod Escapes
pub mod Steps
use emulator_pdp.Prelude.{
  ℕ, zero, suc, ◌+◌, ◌-◌, ◌*◌, ◌/◌, ◌%◌, bit_and, ltb, leb, ◌==◌, ◌&&◌, if◌then◌else◌, u8, Bool,
  List, [], ◌∷◌, ◌++◌, length, drop, take, same_bytes, update,
}

abbrev pub tail_size : ℕ
tail_size = 256

-- `console_state`: the first `len` characters of its array.
unfoldable pub tail_sink : ℕ → List ℕ → List ℕ
tail_sink ch tail =
    let c = bit_and ch 0o177 in
    if ltb (length tail) tail_size then tail ++ c ∷ [] else drop 1 tail ++ c ∷ []

unfoldable pub tail_ends_with : List ℕ → List ℕ → Bool
tail_ends_with tail s =
    ltb 0 (length s)
    && (leb (length s) (length tail) && same_bytes (drop (length tail - length s) tail) s)

-- The byte that an escape stands for.
abbrev escaped : ℕ → ℕ
escaped c = if c == b'r' then 0o15 else if c == b'n' then 0o12 else if c == b't' then 0o11 else u8 c

-- At most `cap` bytes.
unfoldable pub unescape : List ℕ → ℕ → List ℕ
unescape [] cap = []
unescape (c ∷ s) zero = []
unescape (c ∷ []) (suc cap) = u8 c ∷ []
unescape (c ∷ d ∷ s) (suc cap) =
    let escape = escaped d ∷ unescape s cap in
    let plain = u8 c ∷ unescape (d ∷ s) cap in if c == 0x5c then escape else plain

pub record DialogStep : Type 0 where
  pub expect : List ℕ
  pub send : List ℕ

-- A field up to the next bar, of which the first `room` characters are kept, and what follows.
unfoldable pub take_field : ℕ → List ℕ → List ℕ × List ℕ
take_field room [] = ([], [])
take_field zero (c ∷ s) = let rest = take_field zero s in if c == b'|' then ([], s) else rest
take_field (suc room) (c ∷ s) =
    let rest = take_field room s in if c == b'|' then ([], s) else (c ∷ rest.0, rest.1)

abbrev pub field_room : ℕ
field_room = 127

-- An even field is what a step expects, an odd one what it sends.
unfoldable pub put_field : ℕ → List ℕ → (ℕ → DialogStep) → ℕ → DialogStep
unfolding unescape
put_field nfield text steps =
    let st = steps (nfield / 2) in
    update steps (nfield / 2) (
      if nfield % 2 == 0
      then record { expect = unescape text 63; send = [] }
      else record st { send = unescape text 128 })

-- The loop, with the fields that still fit in `steps`.
unfoldable pub parse_fields : ℕ → ℕ → List ℕ → (ℕ → DialogStep) → ℕ × (ℕ → DialogStep)
unfolding take_field put_field
parse_fields zero nfield p steps = (nfield, steps)
parse_fields (suc left) nfield [] steps = (nfield, steps)
parse_fields (suc left) nfield (c ∷ s) steps =
    let (text, rest) = take_field field_room (c ∷ s) in
    parse_fields left (nfield + 1) rest (put_field nfield text steps)

-- The number of steps and the steps.
unfoldable pub parse_dialog : List ℕ → (ℕ → DialogStep) → ℕ → ℕ × (ℕ → DialogStep)
unfolding parse_fields
parse_dialog spec steps cap =
    let (nfield, done) = parse_fields (2 * cap) 0 spec steps in ((nfield + 1) / 2, done)
