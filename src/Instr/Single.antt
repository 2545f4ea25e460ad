-- ===== src/Instr/Single.antt =====
-- src/core/cpu/cpu.c: the single-operand instructions. Each case returns what it stores and the state
-- with its codes; `none` stores nothing.
use emulator_pdp.Prelude.{
  ℕ, ◌+◌, ◌-◌, bit_and, bit_or, and_not, tst, not, ◌==◌, ◌&&◌, if◌then◌else◌, ◌>>>◌, ◌<<<◌, u16,
  u32, sub32, bool_to_ℕ, Bool, true, false, Option, none, some,
}
use emulator_pdp.State.{Cpu, model_eq, m1120}
use emulator_pdp.Monad.{M, skip, ◌>>=◌}
use emulator_pdp.Operand.{decode_operand, read_operand, write_operand}
use emulator_pdp.Alu.{
  psw_c, psw_v, psw_z, psw_n, width_msb, width_mask, set_flag, flag_set, set_nz, set_nzvc,
  set_v_from_nc,
}

module _ (d : ℕ) (bytemode : Bool) (c : Cpu) where
  clr : ℕ × Cpu
  clr = (
    0,
    set_flag psw_c false (set_flag psw_v false (set_flag psw_z true (set_flag psw_n false c))),
  )

  complement : ℕ × Cpu
  complement =
      let result = u16 (and_not (width_mask bytemode) d) in
      (result, set_nzvc result bytemode false true c)

  inc : ℕ × Cpu
  inc =
      let mask = width_mask bytemode in
      let result = u16 (bit_and (u32 (d + 1)) mask) in
      (
        result,
        set_flag psw_v (bit_and d mask == u16 (width_msb bytemode - 1)) (set_nz result bytemode c),
      )

  dec : ℕ × Cpu
  dec =
      let mask = width_mask bytemode in
      let result = u16 (bit_and (sub32 d 1) mask) in
      (result, set_flag psw_v (bit_and d mask == width_msb bytemode) (set_nz result bytemode c))

  neg : ℕ × Cpu
  neg =
      let result = u16 (bit_and (sub32 0 d) (width_mask bytemode)) in
      (result, set_nzvc result bytemode (result == width_msb bytemode) (not (result == 0)) c)

  adc : ℕ × Cpu
  adc =
      let mask = width_mask bytemode in
      let cin = flag_set psw_c c in
      let result = u16 (bit_and (d + bool_to_ℕ cin) mask) in
      (
        result,
        set_nzvc result bytemode (cin && bit_and d mask == u16 (width_msb bytemode - 1))
            (cin && bit_and d mask == mask) c,
      )

  sbc : ℕ × Cpu
  sbc =
      let mask = width_mask bytemode in
      let cin = flag_set psw_c c in
      let result = u16 (bit_and (sub32 d (bool_to_ℕ cin)) mask) in
      (
        result,
        set_nzvc result bytemode (cin && bit_and d mask == width_msb bytemode)
            (cin && bit_and d mask == 0) c,
      )

  ror : ℕ × Cpu
  ror =
      let cin = if flag_set psw_c c then width_msb bytemode else 0 in
      let result = u16 (bit_or (bit_and d (width_mask bytemode) >>> 1) cin) in
      (result, set_v_from_nc (set_nz result bytemode (set_flag psw_c (tst d 1) c)))

  rol : ℕ × Cpu
  rol =
      let cin = bool_to_ℕ (flag_set psw_c c) in
      let result = u16 (bit_and (bit_or (d <<< 1) cin) (width_mask bytemode)) in
      (
        result,
        set_v_from_nc (set_nz result bytemode (set_flag psw_c (tst d (width_msb bytemode)) c)),
      )

  asr : ℕ × Cpu
  asr =
      let half = bit_and d (width_mask bytemode) >>> 1 in
      let result = u16 (bit_or half (bit_and d (width_msb bytemode))) in
      (result, set_v_from_nc (set_nz result bytemode (set_flag psw_c (tst d 1) c)))

  asl : ℕ × Cpu
  asl =
      let result = u16 (bit_and (d <<< 1) (width_mask bytemode)) in
      (
        result,
        set_v_from_nc (set_nz result bytemode (set_flag psw_c (tst d (width_msb bytemode)) c)),
      )

  swab : ℕ × Cpu
  swab =
      let result = u16 (bit_and (bit_or (d <<< 8) (d >>> 8)) 0o177777) in
      let c1 = set_flag psw_z (bit_and result 0o377 == 0) (set_flag psw_n (tst result 0o200) c) in
      let c2 = if model_eq c.cfg.model m1120 then c1 else set_flag psw_v false c1 in
      (result, set_flag psw_c false c2)

  sxt : ℕ × Cpu
  sxt =
      let n = flag_set psw_n c in
      (if n then width_mask bytemode else 0, set_flag psw_v false (set_flag psw_z (not n) c))

abbrev stores : ℕ × Cpu → Option ℕ × Cpu
stores (v, c) = (some v, c)

-- The switch of `single_op`.
unfoldable pub single_result : ℕ → ℕ → Bool → Cpu → Option ℕ × Cpu
unfolding clr complement inc dec neg adc sbc ror rol asr asl swab sxt
single_result base d bytemode c =
    if base == 0o50
    then stores (clr d bytemode c)
    else if base == 0o51
    then stores (complement d bytemode c)
    else if base == 0o52
    then stores (inc d bytemode c)
    else if base == 0o53
    then stores (dec d bytemode c)
    else if base == 0o54
    then stores (neg d bytemode c)
    else if base == 0o55
    then stores (adc d bytemode c)
    else if base == 0o56
    then stores (sbc d bytemode c)
    else if base == 0o57
    then (none, set_nzvc d bytemode false false c)
    else if base == 0o60
    then stores (ror d bytemode c)
    else if base == 0o61
    then stores (rol d bytemode c)
    else if base == 0o62
    then stores (asr d bytemode c)
    else if base == 0o63
    then stores (asl d bytemode c)
    else if base == 0o3
    then stores (swab d bytemode c)
    else if base == 0o67
    then stores (sxt d bytemode c)
    else (none, c)

unfoldable pub single_op : ℕ → ℕ → Bool → M (Unit {0})
unfolding single_result
single_op word base bytemode = do
  dst ← decode_operand (bit_and word 0o77) bytemode
  d ← read_operand dst bytemode
  λ c.
      let (stored, c') = single_result base d bytemode c in
      elim stored [ some result ↦ write_operand dst bytemode result c' | none ↦ skip c' ]
