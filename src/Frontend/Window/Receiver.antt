-- ===== src/Frontend/Window/Receiver.antt =====
-- src/frontend/sdl/main.c: the order in which a frame hands the queued keys to the receiver.
use emulator_pdp.Prelude.{
  ℕ, zero, suc, tst, if◌then◌else◌, Bool, true, false, Option, none, some, List, [], ◌++◌, take,
  ◌≡◌, refl, ap, sym, ◌∙◌, inl, inr, Bool-cases,
}
use mathlib.Core.List.{append_assoc}
use emulator_pdp.State.{Cpu}
use emulator_pdp.Monad.{Result, ok, fault}
use emulator_pdp.Console.{console_input, dl11_done}
use emulator_pdp.Console.Reception.{received, received_same, received-console_input}
use emulator_pdp.Step.{pdp11_cpu_step}
use emulator_pdp.Frontend.Keyboard.{Kbd, kbd_pop}
use emulator_pdp.Frontend.Keyboard.Queue.{IsKbd, contents, Popped, kbd_pop-Popped}
use emulator_pdp.Frontend.Window.{Window, type_byte, feed_key, displayed, counted, run_frame}

-- The bytes that the receiver of the machine takes in a frame, read off the machine before and after
-- each turn at the queue.
unfoldable pub keys_fed : ℕ → Window → Cpu → List ℕ
keys_fed zero w c = []
keys_fed (suc left) w c =
    if c.halted
    then []
    else (let fed = feed_key w c in
        let c1 = fed.1 in
        elim (pdp11_cpu_step (record c1 { printed = [] })) [
          | ok _ c2 ↦ received c c1 ++ keys_fed left (counted (displayed fed.0 c2)) c2
          | fault c2 ↦ received c c1
        ])

-- What was handed over and what is left make up the queue. Where the frame aborts, what was handed
-- over is its first part.
abbrev pub Accounts : Window → List ℕ → Result Window → Type 0
Accounts w log (ok w1 c1) = IsKbd w1.kbd × (contents w.kbd ≡ log ++ contents w1.kbd)
Accounts w log (fault c1) = (rest : List ℕ) × (contents w.kbd ≡ log ++ rest)

-- One turn at the queue.
record IsFed (w : Window) (log : List ℕ) (w1 : Window) : Type 0 where
  keys : IsKbd w1.kbd
  order : contents w.kbd ≡ log ++ contents w1.kbd

-- What follows of a queue that was popped, and the machine.
abbrev handed : Window → Cpu → Option (ℕ × Kbd) → Window × Cpu
handed w c none = (w, c)
handed w c (some (b, k)) = (type_byte b k w, console_input b c)

fed :
    (w : Window) (c : Cpu) (o : Option (ℕ × Kbd))
    → tst c.tti_csr dl11_done ≡ false
    → IsKbd w.kbd
    → Popped w.kbd o
    → IsFed w (received c (handed w c o).1) (handed w c o).0
unfolding type_byte
fed w c none free h p = rw (received_same c) (record { keys = h; order = refl })
fed w c (some (b, k)) free h (hk, p) =
    rw (received-console_input b c free) (record { keys = hk; order = p })

popped_handed :
    (w : Window) (c : Cpu) (o : Option (ℕ × Kbd))
    → (elim o as (λ _. Window × Cpu) [
      | some (b, k) ↦ (type_byte b k w, console_input b c)
      | none ↦ (w, c)
    ])
      ≡ handed w c o
popped_handed w c none = refl
popped_handed w c (some (b, k)) = refl

feed_key-IsFed :
    (w : Window) (c : Cpu) → IsKbd w.kbd → IsFed w (received c (feed_key w c).1) (feed_key w c).0
unfolding feed_key
feed_key-IsFed w c h = elim (Bool-cases (tst c.tti_csr dl11_done)) [
  | inl e ↦ simp e (rw (received_same c) (record { keys = h; order = refl }))
  | inr e ↦ simp e (
      rw (popped_handed w c (kbd_pop w.kbd)) (fed w c (kbd_pop w.kbd) e h (kbd_pop-Popped w.kbd h)))
]

Accounts-append :
    (w w1 : Window) (first log : List ℕ) (r : Result Window)
    → contents w.kbd ≡ first ++ contents w1.kbd
    → Accounts w1 log r
    → Accounts w (first ++ log) r
Accounts-append w w1 first log (ok w2 c2) e (hk, h) =
    (hk, e ∙ ap (λ t. first ++ t) h ∙ sym (append_assoc first log (contents w2.kbd)))
Accounts-append w w1 first log (fault c2) e (rest, h) =
    (rest, e ∙ ap (λ t. first ++ t) h ∙ sym (append_assoc first log rest))

Accounts-if :
    (w : Window) (c : Cpu) (halted : Bool) (log : List ℕ) (r : Result Window)
    → IsKbd w.kbd
    → Accounts w log r
    → Accounts w (if halted then [] else log) (if halted then ok w c else r)
Accounts-if w c true log r hk h = (hk, refl)
Accounts-if w c false log r hk h = h

handed-received :
    (w : Window) (c : Cpu) (o : Option (ℕ × Kbd))
    → tst c.tti_csr dl11_done ≡ false
    → Popped w.kbd o
    → received c (handed w c o).1 ≡ take 1 (contents w.kbd)
handed-received w c none free p = rw (received_same c, p) refl
handed-received w c (some (b, k)) free (hk, p) = rw (received-console_input b c free, p) refl

feed_key-received :
    (w : Window) (c : Cpu)
    → IsKbd w.kbd
    → received c (feed_key w c).1
      ≡ (if tst c.tti_csr dl11_done then [] else take 1 (contents w.kbd))
unfolding feed_key
feed_key-received w c h = elim (Bool-cases (tst c.tti_csr dl11_done)) [
  | inl e ↦ simp e (received_same c)
  | inr e ↦ simp e (
      rw (popped_handed w c (kbd_pop w.kbd))
        (handed-received w c (kbd_pop w.kbd) e (kbd_pop-Popped w.kbd h)))
]

run_frame-Accounts :
    (n : ℕ) (w : Window) (c : Cpu) → IsKbd w.kbd → Accounts w (keys_fed n w c) (run_frame n w c)
unfolding run_frame keys_fed
run_frame-Accounts zero w c h = (h, refl)
run_frame-Accounts (suc n) w c h =
    let c1 = (feed_key w c).1 in
    Accounts-if w c c.halted _ _ h
      (after (run_frame-Accounts n) (pdp11_cpu_step (record c1 { printed = [] })))
  where
    after :
        ((w1 : Window) (c2 : Cpu)
          → IsKbd w1.kbd
          → Accounts w1 (keys_fed n w1 c2) (run_frame n w1 c2))
        → (r : Result (Unit {0}))
        → Accounts w
            (elim r [
              | ok _ c2 ↦
                  received c (feed_key w c).1
                  ++ keys_fed n (counted (displayed (feed_key w c).0 c2)) c2
              | fault c2 ↦ received c (feed_key w c).1
            ])
            (elim r [
              | ok _ c2 ↦ run_frame n (counted (displayed (feed_key w c).0 c2)) c2
              | fault c2 ↦ fault c2
            ])
    after ih (ok _ c2) =
        let f = feed_key-IsFed w c h in
        Accounts-append w (counted (displayed (feed_key w c).0 c2)) (received c (feed_key w c).1)
          (keys_fed n (counted (displayed (feed_key w c).0 c2)) c2)
          (run_frame n (counted (displayed (feed_key w c).0 c2)) c2) f.order
          (ih (counted (displayed (feed_key w c).0 c2)) c2 f.keys)
    after ih (fault c2) = let f = feed_key-IsFed w c h in (contents (feed_key w c).0.kbd, f.order)

-- In a frame, however the machine runs, the bytes that its receiver takes and those that are left in
-- the queue are the queue as it was, in its order: none is lost, written over, doubled or moved. At
-- each turn the receiver takes the oldest byte of the queue, if there is one, where it is free, and
-- nothing where it is not.
pub keys_fed-Accounts :
    (n : ℕ) (w : Window) (c : Cpu)
    → IsKbd w.kbd
    → Accounts w (keys_fed n w c) (run_frame n w c)
      × (received c (feed_key w c).1
          ≡ (if tst c.tti_csr dl11_done then [] else take 1 (contents w.kbd)))
keys_fed-Accounts n w c h = (run_frame-Accounts n w c h, feed_key-received w c h)
