-- ===== src/Monad.antt =====
-- Code that may abort: `cpu_bus_fault` records a vector and unwinds by `longjmp` to the step.
-- Such a function is a step of this monad, and an abort keeps the state at the fault.
use emulator_pdp.Prelude.{ℕ, Bool, true, false, ◌≡◌, ap}
use emulator_pdp.State.{Cpu}

pub data Result (A : Type 0) : Type 0 where
  ok : A → Cpu → Result A
  fault : Cpu → Result A

abbrev pub M : Type 0 → Type 0
M A = Cpu → Result A

abbrev pub pure : {A : Type 0} → A → M A
pure a c = ok a c

infixl 5 ◌>>=◌ ◌>>◌
abbrev pub ◌>>=◌ : {A B : Type 0} → M A → (A → M B) → M B
◌>>=◌ m f c = elim (m c) [ ok a c' ↦ f a c' | fault c' ↦ fault c' ]

abbrev pub ◌>>◌ : {B : Type 0} → M (Unit {0}) → M B → M B
m >> k = m >>= λ _. k

abbrev pub get : M Cpu
get c = ok c c

abbrev pub gets : {A : Type 0} → (Cpu → A) → M A
gets f c = ok (f c) c

abbrev pub modify : (Cpu → Cpu) → M (Unit {0})
modify f c = ok tt (f c)

abbrev pub skip : M (Unit {0})
skip c = ok tt c

-- `cpu_bus_fault`.
unfoldable pub cpu_bus_fault : {A : Type 0} → ℕ → M A
cpu_bus_fault vector c = fault (record c { abort_vec = vector })

-- The state that a result holds, aborted or not.
abbrev pub state_of : {A : Type 0} → Result A → Cpu
state_of (ok a c) = c
state_of (fault c) = c

-- The value of a result, or `d` after an abort.
abbrev pub value_or : {A : Type 0} → A → Result A → A
value_or d (ok a c) = a
value_or d (fault c) = d

-- The result is an abort.
abbrev pub aborted : {A : Type 0} → Result A → Bool
aborted (ok a c) = false
aborted (fault c) = true

-- What follows a step that succeeds.
pub bind_ok :
    {A B : Type 0} (m : M A) (f : A → M B) (c c1 : Cpu) (a : A)
    → m c ≡ ok a c1
    → (m >>= f) c ≡ f a c1
bind_ok m f c c1 a e =
    ap (λ r. elim r as (λ _. Result _) [ ok b c2 ↦ f b c2 | fault c2 ↦ fault c2 ]) e
