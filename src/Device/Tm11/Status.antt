-- ===== src/Device/Tm11/Status.antt =====
-- The status register MTS of the TM11.
use emulator_pdp.Prelude.{
  ℕ, bit_and, bit_or, and_not, tst, Bool, true, false, ◌≡◌, refl, ap, sym, ◌∙◌, leb, not, ◌==◌,
  if◌then◌else◌,
}
use emulator_pdp.State.{Tm11}
use emulator_pdp.Bits.{bit_or-bit_and_other, and_not-bit_and, bit_and_assoc}
use emulator_pdp.Model.{is_attached}
use emulator_pdp.Device.Tm11.{
  status, set_when, sta_eof, sta_eot, sta_wlk, sta_bot, sta_onl, sta_tur, sta_dyn,
}

-- `s` has no file mark.
abbrev NoEof : ℕ → Type 0
NoEof s = bit_and s sta_eof ≡ 0

NoEof-set_when :
    (b : Bool) (flag s : ℕ) → bit_and flag sta_eof ≡ 0 → NoEof s → NoEof (set_when b flag s)
NoEof-set_when true flag s apart h = bit_or-bit_and_other s flag sta_eof apart ∙ h
NoEof-set_when false flag s apart h = h

NoEof-cleared : (s : ℕ) → NoEof (and_not s sta_dyn)
NoEof-cleared s =
    sym (bit_and_assoc (and_not s sta_dyn) sta_dyn sta_eof)
    ∙ ap (λ t. bit_and t sta_eof) (and_not-bit_and s sta_dyn)

NoEof-online : (b : Bool) (x y : ℕ) → NoEof x → NoEof y → NoEof (if b then x else y)
NoEof-online true x y hx hy = hx
NoEof-online false x y hx hy = hy

-- The file-mark bit is never set in the status that MTS shows, whatever the controller recorded.
status-eof : (d : Tm11) → tst (status d) sta_eof ≡ false
unfolding status
status-eof d =
    let s = and_not d.sta sta_dyn in
    let on = bit_or s sta_onl in
    let bot = set_when (d.pos == 0) sta_bot on in
    let wlk = set_when d.wrp sta_wlk bot in
    let eot = set_when (leb d.tape_len d.pos) sta_eot wlk in
    let base = NoEof-cleared d.sta in
    let h_bot =
      NoEof-set_when (d.pos == 0) sta_bot on refl (NoEof-set_when true sta_onl s refl base) in
    let h_eot =
      NoEof-set_when (leb d.tape_len d.pos) sta_eot wlk refl
        (NoEof-set_when d.wrp sta_wlk bot refl h_bot) in
    let whole = NoEof-online (is_attached d.tape) eot s h_eot base in
    ap (λ t. not (t == 0))
      (NoEof-set_when (not d.busy) sta_tur (if is_attached d.tape then eot else s) refl whole)
