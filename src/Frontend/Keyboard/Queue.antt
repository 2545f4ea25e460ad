-- ===== src/Frontend/Keyboard/Queue.antt =====
-- src/frontend/sdl/main.c: `kbd` is a queue of at most 255 bytes.
use emulator_pdp.Prelude.{
  ℕ, zero, suc, ◌+◌, ◌-◌, ◌%◌, ◌<◌, ◌≤◌, ltb, ◌==◌, if◌then◌else◌, u8, update, true, false, Option,
  none, some, List, [], ◌∷◌, ◌++◌, ◌≡◌, refl, ap, sym, ◌∙◌, arith, length, ==_refl, inl, inr,
  Bool-cases,
}
use emulator_pdp.Frontend.Keyboard.{Kbd, kbd_size, kbd_push, kbd_pop}

-- The indices are within the buffer.
pub record IsKbd (k : Kbd) : Type 0 where
  pub head_fits : k.head < kbd_size
  pub tail_fits : k.tail < kbd_size

-- n bytes from an index on, round the end of the buffer.
abbrev slice : (ℕ → ℕ) → ℕ → ℕ → List ℕ
slice buf i zero = []
slice buf i (suc n) = buf i ∷ slice buf ((i + 1) % kbd_size) n

abbrev held : Kbd → ℕ
held k = (k.tail + kbd_size - k.head) % kbd_size

-- The bytes of the queue, the oldest first.
unfoldable pub contents : Kbd → List ℕ
contents k = slice k.buf k.head (held k)

slice-suc :
    (buf : ℕ → ℕ) (i n : ℕ)
    → i < kbd_size
    → slice buf i (suc n) ≡ slice buf i n ++ buf ((i + n) % kbd_size) ∷ []
slice-suc buf i zero h = ap (λ j. buf j ∷ []) (omega arith)
slice-suc buf i (suc n) h = ap (◌∷◌ (buf i)) (
    slice-suc buf ((i + 1) % kbd_size) n (omega arith)
    ∙ ap (λ j. slice buf ((i + 1) % kbd_size) n ++ buf j ∷ []) (omega arith))

-- A write elsewhere.
slice-update :
    (buf : ℕ → ℕ) (i n j v : ℕ)
    → i < kbd_size
    → j < kbd_size
    → n ≤ (j + kbd_size - i) % kbd_size
    → slice (update buf j v) i n ≡ slice buf i n
slice-update buf i zero j v hi hj h = refl
slice-update buf i (suc n) j v hi hj h =
    let elsewhere : j == i ≡ false = ground arith in
    rw elsewhere (
      ap (◌∷◌ (buf i)) (slice-update buf ((i + 1) % kbd_size) n j v (omega arith) hj (omega arith)))

length-slice : (buf : ℕ → ℕ) (i n : ℕ) → length (slice buf i n) ≡ n
length-slice buf i zero = refl
length-slice buf i (suc n) = ap suc (length-slice buf ((i + 1) % kbd_size) n)

-- The queue of at most 255 bytes: a byte that finds it full is dropped.
abbrev pub enqueue : ℕ → List ℕ → List ℕ
enqueue b q = if ltb (length q) (kbd_size - 1) then q ++ u8 b ∷ [] else q

pub kbd_push-IsKbd : (b : ℕ) (k : Kbd) → IsKbd k → IsKbd (kbd_push b k)
unfolding kbd_push
kbd_push-IsKbd b k h = ground arith

newest : (k : Kbd) (b : ℕ) {j : ℕ} → j ≡ k.tail → update k.buf k.tail (u8 b) j ≡ u8 b
newest k b e = rw (e, ==_refl k.tail) refl

contents-kbd_push : (b : ℕ) (k : Kbd) → IsKbd k → contents (kbd_push b k) ≡ enqueue b (contents k)
unfolding kbd_push contents
contents-kbd_push b k h = elim (Bool-cases ((k.tail + 1) % kbd_size == k.head)) [
  | inl full ↦
      let most : ltb (held k) (kbd_size - 1) ≡ false = ground arith in
      rw (full, length-slice k.buf k.head (held k), most) refl
  | inr free ↦
      let room : ltb (held k) (kbd_size - 1) ≡ true = ground arith in
      let longer : ((k.tail + 1) % kbd_size + kbd_size - k.head) % kbd_size ≡ suc (held k) =
        ground arith in
      let last : (k.head + held k) % kbd_size ≡ k.tail = ground arith in
      rw (free, length-slice k.buf k.head (held k), room, longer)
        (slice-suc (update k.buf k.tail (u8 b)) k.head (held k) h.head_fits ∙ (λ i.
          slice-update k.buf k.head (held k) k.tail (u8 b) h.head_fits h.tail_fits (omega arith) i
          ++ newest k b last i ∷ []))
]

-- What a pop gives: nothing from an empty queue, and the oldest byte from any other.
abbrev pub Popped : Kbd → Option (ℕ × Kbd) → Type 0
Popped k none = contents k ≡ []
Popped k (some (b, k1)) = IsKbd k1 × (contents k ≡ b ∷ contents k1)

pub kbd_pop-Popped : (k : Kbd) → IsKbd k → Popped k (kbd_pop k)
unfolding kbd_pop contents
kbd_pop-Popped k h = elim (Bool-cases (k.head == k.tail)) [
  | inl e ↦ let empty : held k ≡ 0 = ground arith in rw e (rw empty refl)
  | inr e ↦
      let first : held k ≡ suc ((k.tail + kbd_size - (k.head + 1) % kbd_size) % kbd_size) =
        ground arith in
      rw e
        (record { head_fits = omega arith; tail_fits = h.tail_fits }, ap (slice k.buf k.head) first)
]

-- What the window does to the queue.
pub data KbdOp : Type 0 where
  push : ℕ → KbdOp
  pop : KbdOp

-- The bytes that a sequence of operations hands over.
unfoldable pub handed : List KbdOp → Kbd → List ℕ
handed [] k = []
handed (push b ∷ ops) k = handed ops (kbd_push b k)
handed (pop ∷ ops) k = elim (kbd_pop k) [ none ↦ handed ops k | some (b, k1) ↦ b ∷ handed ops k1 ]

unfoldable pub queued : List KbdOp → List ℕ → List ℕ
queued [] q = []
queued (push b ∷ ops) q = queued ops (enqueue b q)
queued (pop ∷ ops) [] = queued ops []
queued (pop ∷ ops) (b ∷ q) = b ∷ queued ops q

-- Over any sequence of pushes and pops the ring of 256 cells hands over the same bytes as a queue
-- that holds 255 at most, cuts each to 8 bits and drops what it has no room for.
pub handed-queued : (ops : List KbdOp) (k : Kbd) → IsKbd k → handed ops k ≡ queued ops (contents k)
unfolding handed queued
handed-queued [] k h = refl
handed-queued (push b ∷ ops) k h =
    handed-queued ops (kbd_push b k) (kbd_push-IsKbd b k h)
    ∙ ap (queued ops) (contents-kbd_push b k h)
handed-queued (pop ∷ ops) k h = after (handed-queued ops) (kbd_pop k) (kbd_pop-Popped k h)
  where
    after :
        ((k1 : Kbd) → IsKbd k1 → handed ops k1 ≡ queued ops (contents k1))
        → (o : Option (ℕ × Kbd)) → Popped k o
        → elim o [ none ↦ handed ops k | some (b, k1) ↦ b ∷ handed ops k1 ]
          ≡ queued (pop ∷ ops) (contents k)
    after ih none e = ih k h ∙ ap (queued ops) e ∙ ap (queued (pop ∷ ops)) (sym e)
    after ih (some (b, k1)) (h1, e) = ap (◌∷◌ b) (ih k1 h1) ∙ ap (queued (pop ∷ ops)) (sym e)
