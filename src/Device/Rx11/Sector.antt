-- ===== src/Device/Rx11/Sector.antt =====
-- src/core/devices/rx11.c: the sector buffer filled by a program, and emptied again.
use emulator_pdp.Prelude.{
  ℕ, zero, suc, ◌+◌, ◌-◌, ◌<◌, ◌≤◌, bit_and, leb, ltb, ◌==◌, ◌&&◌, if◌then◌else◌, u8, update, true,
  false, some, List, [], ◌∷◌, map, length, get_or, get_or_first, get_or_later, ◌≡◌, refl, ap, sym,
  ◌∙◌, arith, Bool-cases, inl, inr,
}
use mathlib.Core.Path.{subst}
use emulator_pdp.State.{Cpu, Rx11}
use emulator_pdp.Bits.{bit_and_low}
use emulator_pdp.Device.Rx11.{
  complete, step, empty_step, fill_step, read, write, write_rxcs, launch, st_fill, st_empty,
  st_idle, rx_numby,
}
use emulator_pdp.Device.Rx11.Bounds.{complete-facts}

abbrev pub rxcs_address : ℕ
rxcs_address = 0o177170

abbrev pub rxdb_address : ℕ
rxdb_address = 0o177172

-- What a program does: writes and reads of the data register, one after another.
unfoldable pub write_bytes : List ℕ → Cpu → Cpu
write_bytes [] c = c
write_bytes (b ∷ bs) c = write_bytes bs (write rxdb_address b c)

unfoldable pub read_bytes : ℕ → Cpu → List ℕ
read_bytes zero c = []
read_bytes (suc left) c = let (b, c1) = read rxdb_address c in b ∷ read_bytes left c1

-- A fill that waits for the i-th byte, and an empty that offers it.
abbrev filling_at : Cpu → Rx11 → ℕ → Cpu
filling_at c d i = record c { rx = record d { state = st_fill; rxcs = 0o200; bptr = i } }

abbrev emptying_at : Cpu → Rx11 → ℕ → Cpu
emptying_at c d i = record c {
  rx = record d { state = st_empty; rxcs = 0o202; bptr = i + 1; rxdb = d.buf i };
}

abbrev stored : Rx11 → ℕ → ℕ → Rx11
stored d i b = let v = u8 (bit_and b 0o377) in record d { buf = update d.buf i v; rxdb = v }

write-filling :
    (c : Cpu) (d : Rx11) (i b : ℕ)
    → write rxdb_address b (filling_at c d i) ≡ (
        if ltb (u8 (i + 1)) rx_numby
        then filling_at c (stored d i b) (u8 (i + 1))
        else complete 0 (some 0) (record c {
          rx = record (stored d i b) { state = st_fill; rxcs = 0; bptr = u8 (i + 1) };
        }))
unfolding write step fill_step
write-filling c d i b = refl

read-emptying :
    (c : Cpu) (d : Rx11) (i : ℕ)
    → read rxdb_address (emptying_at c d i) ≡ (
      d.buf i,
      (if leb rx_numby (i + 1)
          then complete 0 (some 0) (record c {
            rx = record d { state = st_empty; rxcs = 2; bptr = i + 1; rxdb = d.buf i };
          })
          else record c {
            rx = record d {
              state = st_empty;
              rxcs = 0o202;
              bptr = u8 (i + 1 + 1);
              rxdb = d.buf (i + 1);
            };
          }),
    )
unfolding read step empty_step
read-emptying c d i = refl

-- The buffer after the bytes from the i-th place on.
abbrev laid : (ℕ → ℕ) → ℕ → List ℕ → ℕ → ℕ
laid buf i bs j = if leb i j && ltb j (i + length bs) then u8 (get_or bs (j - i) 0) else buf j

laid-next :
    (buf : ℕ → ℕ) (i b j : ℕ) (bs : List ℕ)
    → laid (update buf i (u8 (bit_and b 0o377))) (i + 1) bs j ≡ laid buf i (b ∷ bs) j
laid-next buf i b j bs = elim (Bool-cases (i == j)) [
  | inl e ↦ ground (arith, e, bit_and_low 8 b, get_or_first b bs (j - i) 0)
  | inr e ↦
      let later : j - (i + 1) ≡ j - i - 1 = omega arith in
      ground (arith, e, ap (λ k. get_or bs k 0) later, get_or_later b bs (j - i) 0)
]

laid-nil : (buf : ℕ → ℕ) (i j : ℕ) → buf j ≡ laid buf i [] j
laid-nil buf i j = ground arith

laid-at :
    (buf : ℕ → ℕ) (i k : ℕ) (bs : List ℕ)
    → k < length bs
    → laid buf i bs (i + k) ≡ u8 (get_or bs k 0)
laid-at buf i k bs h =
    let back : i + k - i ≡ k = omega arith in ground (arith, h, ap (λ m. u8 (get_or bs m 0)) back)

-- The end of a fill: idle, with the bytes in the buffer.
abbrev IsFilled : (ℕ → ℕ) → ℕ → List ℕ → Cpu → Type 0
IsFilled buf i bs w = (w.rx.state ≡ st_idle) × ((j : ℕ) → w.rx.buf j ≡ laid buf i bs j)

filled_lem :
    (b : ℕ) (bs : List ℕ) (c : Cpu) (d : Rx11) (i : ℕ)
    → i + length (b ∷ bs) ≡ rx_numby
    → IsFilled d.buf i (b ∷ bs) (write_bytes (b ∷ bs) (filling_at c d i))
unfolding write_bytes
filled_lem b [] c d i h =
    let last : ltb (u8 (i + 1)) rx_numby ≡ false = ground (arith, h) in
    let f =
      complete-facts 0 (some 0) (record c {
        rx = record (stored d i b) { state = st_fill; rxcs = 0; bptr = u8 (i + 1) };
      }) in
    rw (write-filling c d i b, last)
      (
        f.0,
        λ j.
            ap (λ (m : ℕ → ℕ). m j) f.2
            ∙ laid-nil (stored d i b).buf (i + 1) j
            ∙ laid-next d.buf i b j [],
      )
filled_lem b (b1 ∷ bs) c d i h =
    let more : ltb (u8 (i + 1)) rx_numby ≡ true = ground (arith, h) in
    let next : u8 (i + 1) ≡ i + 1 = omega (arith, h) in
    let d1 = stored d i b in
    let one : write rxdb_address b (filling_at c d i) ≡ filling_at c d1 (i + 1) =
      write-filling c d i b ∙ rw (more, next) refl in
    let rest = filled_lem b1 bs c d1 (i + 1) (omega (arith, h)) in
    subst (IsFilled d.buf i (b ∷ b1 ∷ bs)) (ap (write_bytes (b1 ∷ bs)) (sym one))
      (rest.0, λ j. rest.1 j ∙ laid-next d.buf i b j (b1 ∷ bs))

-- Bytes of a buffer, from the i-th on.
abbrev bytes_from : (ℕ → ℕ) → ℕ → ℕ → List ℕ
bytes_from buf i zero = []
bytes_from buf i (suc left) = buf i ∷ bytes_from buf (i + 1) left

emptied_lem :
    (left : ℕ) (c : Cpu) (d : Rx11) (i : ℕ)
    → i + left ≤ rx_numby
    → read_bytes left (emptying_at c d i) ≡ bytes_from d.buf i left
unfolding read_bytes
emptied_lem zero c d i h = refl
emptied_lem (suc zero) c d i h = ap (λ r. r.0 ∷ []) (read-emptying c d i)
emptied_lem (suc (suc left)) c d i h =
    let more : leb rx_numby (i + 1) ≡ false = ground (arith, h) in
    let next : u8 (i + 1 + 1) ≡ i + 1 + 1 = omega (arith, h) in
    rw (read-emptying c d i, more, next)
      (ap (◌∷◌ (d.buf i)) (emptied_lem (suc left) c d (i + 1) (omega (arith, h))))

-- The whole buffer that was filled with `bs`.
bytes-laid :
    (buf : ℕ → ℕ) (bs : List ℕ) (i : ℕ)
    → ((k : ℕ) → k < length bs → buf (i + k) ≡ u8 (get_or bs k 0))
    → bytes_from buf i (length bs) ≡ map u8 bs
bytes-laid buf [] i h = refl
bytes-laid buf (b ∷ bs) i h =
    let zeroth : i + 0 ≡ i = omega arith in
    let later : (k : ℕ) → k < length bs → buf (i + 1 + k) ≡ u8 (get_or bs k 0) = λ k small.
      let sum : i + 1 + k ≡ i + suc k = omega arith in ap buf sum ∙ h (suc k) (omega arith) in
    let first : buf i ≡ u8 b = ap buf (sym zeroth) ∙ h 0 (omega arith) in
    rw (first, bytes-laid buf bs (i + 1) later) refl

-- The two functions, launched by a write of the control register.
fill_launched :
    (c : Cpu) → (c.rx.state == st_idle) ≡ true → write rxcs_address 1 c ≡ filling_at c c.rx 0
unfolding write write_rxcs launch
fill_launched c h = rw h refl

empty_launched :
    (c : Cpu) → (c.rx.state == st_idle) ≡ true → write rxcs_address 3 c ≡ emptying_at c c.rx 0
unfolding write write_rxcs launch step empty_step
empty_launched c h = rw h refl

-- From an idle controller, a program that launches a FILL, writes 128 values to the data register,
-- launches an EMPTY and reads the data register 128 times reads the low bytes of the values in
-- order.
pub read_bytes-write_bytes :
    (c : Cpu) (bs : List ℕ)
    → (c.rx.state == st_idle) ≡ true
    → length bs ≡ rx_numby
    → read_bytes rx_numby (write rxcs_address 3 (write_bytes bs (write rxcs_address 1 c)))
      ≡ map u8 bs
read_bytes-write_bytes c [] idle whole = absurd (omega arith)
read_bytes-write_bytes c (b ∷ bs) idle whole =
    let w = write_bytes (b ∷ bs) (filling_at c c.rx 0) in
    let filled = filled_lem b bs c c.rx 0 (omega (arith, whole)) in
    let free : (w.rx.state == st_idle) ≡ true = ground (arith, filled.0) in
    rw (fill_launched c idle, empty_launched w free)
      (emptied_lem rx_numby w w.rx 0 (omega arith)
        ∙ ap (bytes_from w.rx.buf 0) (sym whole)
        ∙ bytes-laid w.rx.buf (b ∷ bs) 0
            (λ k small. filled.1 (0 + k) ∙ laid-at c.rx.buf 0 k (b ∷ bs) small))
