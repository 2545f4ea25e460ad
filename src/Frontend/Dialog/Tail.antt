-- ===== src/Frontend/Dialog/Tail.antt =====
-- src/frontend/headless/main.c: `tail_ends_with` on the tail that `console_sink` keeps.
use emulator_pdp.Prelude.{
  ℕ, ◌+◌, ◌-◌, ◌≤◌, ◌<◌, bit_and, ltb, leb, true, List, [], ◌∷◌, ◌++◌, map, ◌≡◌, refl, ap, sym, ◌∙◌,
  ◌↔◌, arith, inl, inr, Bool-cases, length, length-append, drop, take, length-drop, drop-drop,
  drop-append, drop-append_self, take-append-drop, same_bytes, same_bytes-eq, same_bytes_refl,
}
use mathlib.Core.List.{append-nil, append_assoc}
use emulator_pdp.Frontend.Dialog.{tail_size, tail_sink, tail_ends_with}

-- The tail after the characters of a stream, the first one first.
unfoldable pub tail_sinks : List ℕ → List ℕ → List ℕ
tail_sinks [] tail = tail
tail_sinks (ch ∷ chs) tail = tail_sinks chs (tail_sink ch tail)

-- The characters as they are shown.
abbrev pub shown : List ℕ → List ℕ
shown = map (λ ch. bit_and ch 0o177)

abbrev latest : List ℕ → List ℕ
latest s = drop (length s - tail_size) s

tail_sink-latest :
    (ch : ℕ) (s : List ℕ) → tail_sink ch (latest s) ≡ latest (s ++ bit_and ch 0o177 ∷ [])
unfolding tail_sink
tail_sink-latest ch s =
    let c = bit_and ch 0o177 in
    let size = length-drop (length s - tail_size) s in
    let longer = length-append s (c ∷ []) in
    elim (Bool-cases (ltb (length (latest s)) tail_size)) [
      | inl e ↦
          let none : length s - tail_size ≡ 0 = ground (arith, size) in
          let none1 : length (s ++ c ∷ []) - tail_size ≡ 0 = ground (arith, size, longer) in
          rw e (rw (none, none1) refl)
      | inr e ↦
          let next : length (s ++ c ∷ []) - tail_size ≡ length s - tail_size + 1 =
            ground (arith, size, longer) in
          let full : length s - tail_size + 1 ≤ length s = ground (arith, size) in
          rw e (
            ap (λ t. t ++ c ∷ []) (drop-drop 1 (length s - tail_size) s)
            ∙ sym (drop-append (length s - tail_size + 1) s (c ∷ []) full)
            ∙ ap (λ n. drop n (s ++ c ∷ [])) (sym next))
    ]

tail_sinks-latest : (chs s : List ℕ) → tail_sinks chs (latest s) ≡ latest (s ++ shown chs)
unfolding tail_sinks
tail_sinks-latest [] s = ap latest (sym (append-nil s))
tail_sinks-latest (ch ∷ chs) s =
    ap (tail_sinks chs) (tail_sink-latest ch s)
    ∙ tail_sinks-latest chs (s ++ bit_and ch 0o177 ∷ [])
    ∙ ap latest (append_assoc s (bit_and ch 0o177 ∷ []) (shown chs))

-- The tail of a stream from the start is its last 256 characters.
tail_is_latest : (chs : List ℕ) → tail_sinks chs [] ≡ latest (shown chs)
tail_is_latest chs = tail_sinks-latest chs []

ending-drop :
    (n : ℕ) (s : List ℕ)
    → n ≤ tail_size
    → n ≤ length s
    → drop (length (latest s) - n) (latest s) ≡ drop (length s - n) s
ending-drop n s h fits =
    let size = length-drop (length s - tail_size) s in
    drop-drop (length (latest s) - n) (length s - tail_size) s
    ∙ ap (λ k. drop k s) (omega (arith, size))

ends_with-append :
    (s end : List ℕ)
    → length end ≤ tail_size
    → 0 < length end
    → (p : List ℕ) → s ≡ p ++ end
    → tail_ends_with (latest s) end ≡ true
unfolding tail_ends_with
ends_with-append s end small some_end p e =
    let size = length-drop (length s - tail_size) s in
    let parts : length s ≡ length p + length end = ap length e ∙ length-append p end in
    let before : length s - length end ≡ length p = omega (arith, parts) in
    let last : drop (length (latest s) - length end) (latest s) ≡ end =
      ending-drop (length end) s small (omega (arith, parts))
      ∙ ap (λ k. drop k s) before
      ∙ ap (drop (length p)) e
      ∙ drop-append_self p end in
    let long : leb (length end) (length (latest s)) ≡ true = ground (arith, size, parts) in
    let some_byte : ltb 0 (length end) ≡ true = ground arith in
    rw (some_byte, long, last) (same_bytes_refl end)

ends_with-split :
    (s end : List ℕ)
    → length end ≤ tail_size
    → tail_ends_with (latest s) end ≡ true
    → (0 < length end) × ((p : List ℕ) × (s ≡ p ++ end))
unfolding tail_ends_with
ends_with-split s end small h =
    let size = length-drop (length s - tail_size) s in
    let fits : length end ≤ length s = ground (arith, size) in
    let same : same_bytes (drop (length (latest s) - length end) (latest s)) end ≡ true =
      ground arith in
    let before = take (length s - length end) s in
    (
      ground arith,
      (
        before,
        sym (take-append-drop (length s - length end) s)
            ∙ ap (λ t. before ++ t)
                (sym (ending-drop (length end) s small fits)
                  ∙ same_bytes-eq (drop (length (latest s) - length end) (latest s)) end same),
      ),
    )

-- After any stream of characters from the console, `tail_ends_with` finds a prompt of at most 256
-- characters exactly where the prompt is not empty and the whole stream, in 7 bits, ends with it.
pub tail_ends_with-stream :
    (chs prompt : List ℕ)
    → length prompt ≤ tail_size
    → (tail_ends_with (tail_sinks chs []) prompt ≡ true)
      ↔ ((0 < length prompt) × ((p : List ℕ) × (shown chs ≡ p ++ prompt)))
tail_ends_with-stream chs prompt small = rw (tail_is_latest chs) (
  ends_with-split (shown chs) prompt small,
  λ h. ends_with-append (shown chs) prompt small h.0 h.1.0 h.1.1,
)
