-- ===== src/Frontend/Boot/Typing.antt =====
-- src/frontend/headless/main.c: what `run_boot` types, in which order, and when.
use emulator_pdp.Prelude.{
  ℕ, zero, suc, ◌+◌, ◌-◌, ◌<◌, leb, ltb, ◌&&◌, tst, if◌then◌else◌, Bool, true, false, Option, none,
  some, List, [], ◌∷◌, ◌++◌, ◌≡◌, refl, ap, sym, ◌∙◌, arith, inl, inr, Bool-cases, take, length,
}
use mathlib.Core.List.{append_assoc}
use emulator_pdp.State.{Cpu}
use emulator_pdp.Monad.{Result, ok, fault}
use emulator_pdp.Console.{dl11_done}
use emulator_pdp.Console.Reception.{received, received_same, received-console_input}
use emulator_pdp.Step.{pdp11_cpu_step}
use emulator_pdp.Frontend.Dialog.{DialogStep, tail_ends_with}
use emulator_pdp.Frontend.Boot.{Script, Boot, choose, hand_over, feed, heard, run_boot}

-- The replies of `left` steps from a step on.
abbrev replies : (ℕ → DialogStep) → ℕ → ℕ → List ℕ
replies steps cur zero = []
replies steps cur (suc left) = (steps cur).send ++ replies steps (cur + 1) left

-- What is still to be typed: the script, the rest of the reply, and the replies of later steps.
unfoldable pub outstanding : Script → Boot → List ℕ
outstanding s b = b.input ++ (b.pend ++ replies s.steps b.cur (s.nsteps - b.cur))

abbrev as_list : Option ℕ → List ℕ
as_list none = []
as_list (some ch) = ch ∷ []

-- What a turn of the loop may do to `b`: hand over the next character, or none.
abbrev Turn : Script → Boot → Option ℕ × Boot → Type 0
Turn s b (ch, b1) = outstanding s b ≡ as_list ch ++ outstanding s b1

replies-next :
    (steps : ℕ → DialogStep) (cur n : ℕ)
    → cur < n
    → replies steps cur (n - cur) ≡ (steps cur).send ++ replies steps (cur + 1) (n - (cur + 1))
replies-next steps cur n h =
    let one_more : n - cur ≡ suc (n - (cur + 1)) = omega arith in ap (replies steps cur) one_more

turn :
    (s : Script) (c : Cpu) (tail input pend : List ℕ) (cur next : ℕ)
    → let b : Boot = record {
      tail = tail;
      input = input;
      pend = pend;
      cur = cur;
      next_key_ns = next;
    } in
      Turn s b (choose s b c)
unfolding choose outstanding
turn s c tail (ch ∷ rest) pend cur next = refl
turn s c tail [] (ch ∷ rest) cur next = elim (Bool-cases (leb next c.time_ns)) [
  | inl e ↦ rw e refl
  | inr e ↦ rw e refl
]
turn s c tail [] [] cur next =
    elim (Bool-cases (ltb cur s.nsteps && tail_ends_with tail (s.steps cur).expect)) [
      | inl e ↦ rw e (replies-next s.steps cur s.nsteps (ground arith))
      | inr e ↦ rw e refl
    ]

choose-Turn : (s : Script) (b : Boot) (c : Cpu) → Turn s b (choose s b c)
choose-Turn s b c = turn s c b.tail b.input b.pend b.cur b.next_key_ns

-- The characters that the receiver of the machine takes in a run, read off the machine before and
-- after the loop had its turn at it.
unfoldable pub typed : ℕ → Script → Boot → Cpu → List ℕ
typed zero s b c = []
typed (suc left) s b c =
    if c.halted then [] else elim (pdp11_cpu_step (record c { printed = [] })) [
      | ok _ c1 ↦ (let (b1, c2) = feed s (heard b c1) c1 in received c1 c2 ++ typed left s b1 c2)
      | fault c1 ↦ []
    ]

hand_over-received :
    (o : Option ℕ) (c : Cpu)
    → tst c.tti_csr dl11_done ≡ false
    → received c (hand_over o c) ≡ as_list o
unfolding hand_over
hand_over-received none c free = received_same c
hand_over-received (some ch) c free = received-console_input ch c free

feed-outstanding :
    (s : Script) (b : Boot) (c : Cpu)
    → outstanding s b ≡ received c (feed s b c).1 ++ outstanding s (feed s b c).0
unfolding feed
feed-outstanding s b c = elim (Bool-cases (tst c.tti_csr dl11_done)) [
  | inl e ↦ simp e (rw (received_same c) refl)
  | inr e ↦ simp e (rw (hand_over-received (choose s b c).0 c e) (choose-Turn s b c))
]

heard-outstanding : (s : Script) (b : Boot) (c : Cpu) → outstanding s (heard b c) ≡ outstanding s b
unfolding outstanding
heard-outstanding s b c = refl

-- What was typed and what is left are what was to be typed. Where the run aborts, what was typed is
-- the first part of it.
abbrev pub Accounts : Script → Boot → List ℕ → Result Boot → Type 0
Accounts s b log (ok b1 c1) = outstanding s b ≡ log ++ outstanding s b1
Accounts s b log (fault c1) = (rest : List ℕ) × (outstanding s b ≡ log ++ rest)

Accounts-append :
    (s : Script) (b b1 : Boot) (first log : List ℕ) (r : Result Boot)
    → outstanding s b ≡ first ++ outstanding s b1
    → Accounts s b1 log r
    → Accounts s b (first ++ log) r
Accounts-append s b b1 first log (ok b2 c2) e h =
    e ∙ ap (λ t. first ++ t) h ∙ sym (append_assoc first log (outstanding s b2))
Accounts-append s b b1 first log (fault c2) e (rest, h) =
    (rest, e ∙ ap (λ t. first ++ t) h ∙ sym (append_assoc first log rest))

Accounts-if :
    (s : Script) (b : Boot) (c : Cpu) (halted : Bool) (log : List ℕ) (r : Result Boot)
    → Accounts s b log r
    → Accounts s b (if halted then [] else log) (if halted then ok b c else r)
Accounts-if s b c true log r h = refl
Accounts-if s b c false log r h = h

-- What the loop should type to a receiver that is free: the script as fast as it is taken, and a
-- reply at its times.
abbrev pub due_now : Boot → ℕ → List ℕ
due_now b now =
    if ltb 0 (length b.input)
    then take 1 b.input
    else if leb b.next_key_ns now
    then take 1 b.pend
    else []

choose-due_now :
    (s : Script) (c : Cpu) (tail input pend : List ℕ) (cur next : ℕ)
    → let b : Boot = record {
      tail = tail;
      input = input;
      pend = pend;
      cur = cur;
      next_key_ns = next;
    } in
      as_list (choose s b c).0 ≡ due_now b c.time_ns
unfolding choose
choose-due_now s c tail (ch ∷ rest) pend cur next =
    let any : ltb 0 (length (ch ∷ rest)) ≡ true = ground arith in rw any refl
choose-due_now s c tail [] (ch ∷ rest) cur next = elim (Bool-cases (leb next c.time_ns)) [
  | inl e ↦ rw e refl
  | inr e ↦ rw e refl
]
choose-due_now s c tail [] [] cur next = elim (Bool-cases (leb next c.time_ns)) [
  | inl f ↦ elim (Bool-cases (ltb cur s.nsteps && tail_ends_with tail (s.steps cur).expect)) [
    | inl e ↦ rw (e, f) refl
    | inr e ↦ rw (e, f) refl
  ]
  | inr f ↦ elim (Bool-cases (ltb cur s.nsteps && tail_ends_with tail (s.steps cur).expect)) [
    | inl e ↦ rw (e, f) refl
    | inr e ↦ rw (e, f) refl
  ]
]

feed-received :
    (s : Script) (b : Boot) (c : Cpu)
    → received c (feed s b c).1 ≡ (if tst c.tti_csr dl11_done then [] else due_now b c.time_ns)
unfolding feed
feed-received s b c = elim (Bool-cases (tst c.tti_csr dl11_done)) [
  | inl e ↦ simp e (received_same c)
  | inr e ↦ simp e (
      hand_over-received (choose s b c).0 c e
      ∙ choose-due_now s c b.tail b.input b.pend b.cur b.next_key_ns)
]

run_boot-Accounts :
    (n : ℕ) (s : Script) (b : Boot) (c : Cpu) → Accounts s b (typed n s b c) (run_boot n s b c)
unfolding run_boot typed
run_boot-Accounts zero s b c = refl
run_boot-Accounts (suc n) s b c =
    Accounts-if s b c c.halted _ _
      (after (run_boot-Accounts n s) (pdp11_cpu_step (record c { printed = [] })))
  where
    after :
        ((b1 : Boot) (c2 : Cpu) → Accounts s b1 (typed n s b1 c2) (run_boot n s b1 c2))
        → (r : Result (Unit {0}))
        → Accounts s b
            (elim r [
              | ok _ c1 ↦
                  (let (b1, c2) = feed s (heard b c1) c1 in received c1 c2 ++ typed n s b1 c2)
              | fault c1 ↦ []
            ])
            (elim r [
              | ok _ c1 ↦ (let (b1, c2) = feed s (heard b c1) c1 in run_boot n s b1 c2)
              | fault c1 ↦ fault c1
            ])
    after ih (ok _ c1) =
        Accounts-append s b (feed s (heard b c1) c1).0 (received c1 (feed s (heard b c1) c1).1)
          (typed n s (feed s (heard b c1) c1).0 (feed s (heard b c1) c1).1)
          (run_boot n s (feed s (heard b c1) c1).0 (feed s (heard b c1) c1).1)
          (sym (heard-outstanding s b c1) ∙ feed-outstanding s (heard b c1) c1)
          (ih (feed s (heard b c1) c1).0 (feed s (heard b c1) c1).1)
    after ih (fault c1) = (outstanding s b, refl)

-- However the machine runs, the characters that its receiver takes and those that the loop leaves to
-- be typed are together what was to be typed before: the script, and then the replies of the dialog
-- in their order. No character is lost, written over, taken twice, or taken out of order, and after
-- an abort what was taken is a first part. At each turn a receiver that is free takes the next
-- character of the script, or after the script the next one of the reply once its time has come, and
-- one that is not free takes nothing.
pub typed-Accounts :
    (n : ℕ) (s : Script) (b : Boot) (c : Cpu)
    → Accounts s b (typed n s b c) (run_boot n s b c)
      × (received c (feed s b c).1 ≡ (if tst c.tti_csr dl11_done then [] else due_now b c.time_ns))
typed-Accounts n s b c = (run_boot-Accounts n s b c, feed-received s b c)
