-- ===== src/Device/Media.antt =====
-- What the controllers do alike: the attached buffer, the count registers, and the request line.
-- A buffer is read and written only where it is attached; `none` then reads 0 and takes no write.
-- The state has no bound on an index: a test that keeps one in range is the controller's own.
pub mod Places
use emulator_pdp.Prelude.{ℕ, ◌^◌, ltb, if◌then◌else◌, sub32, update, Option, none, some}

abbrev pub media_get : Option (ℕ → ℕ) → ℕ → ℕ
media_get none i = 0
media_get (some d) i = d i

abbrev pub media_set : Option (ℕ → ℕ) → ℕ → ℕ → Option (ℕ → ℕ)
media_set none i v = none
media_set (some d) i v = some (update d i v)

-- `0200000u - x`, the two's-complement count of a register.
abbrev pub count_of : ℕ → ℕ
count_of x = sub32 0o200000 x

-- The rounds of `for (int32_t i = 0; i < wc; ++i)`, with `wc` given as its 32 bits.
abbrev pub rounds : ℕ → ℕ
rounds wc = if ltb wc (2 ^ 31) then wc else 0
