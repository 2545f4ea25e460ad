-- ===== src/Access/Words.antt =====
-- src/core/cpu/cpu.c: words of memory that are read, written, pushed and popped with memory management off.
use emulator_pdp.Prelude.{
  ℕ, ◌+◌, ◌<◌, leb, tst, bit_and, u16, if◌then◌else◌, Bool, true, false, ◌≡◌, refl, ap, ◌∙◌, arith,
}
use emulator_pdp.State.{Cpu}
use emulator_pdp.Monad.{bind_ok, ok, gets, modify, ◌>>◌}
use emulator_pdp.Memory.{read_word, write_word}
use emulator_pdp.Mmu.{mmu_relocate, mmr0_mme, is_iopage, check_nxm}
use emulator_pdp.Mmu.Addresses.{mmu_relocate-off}
use emulator_pdp.IoPage.{io_read, io_write}
use emulator_pdp.Access.{cpu_read_word_gen, cpu_write_word_mode, count_read}

-- A word of installed memory below the I/O page, at an even address, with management off.
pub record IsPlainWord (va : ℕ) (c : Cpu) : Type 0 where
  pub even : tst va 1 ≡ false
  pub off : tst c.mmr0 mmr0_mme ≡ false
  pub low : va < 0o160000
  pub room : leb c.cfg.mem_top va ≡ false

below_iopage : (pa : ℕ) → pa < 0o160000 → is_iopage pa ≡ false
unfolding is_iopage
below_iopage pa h = ground (arith, h)

module _ (va mode : ℕ) (dspace : Bool) (c : Cpu) (h : IsPlainWord va c) where
  relocated_to_itself : (is_write : Bool) → mmu_relocate va is_write mode dspace c ≡ ok va c
  relocated_to_itself is_write =
      let same : va + (if leb 0o160000 va then 0o17600000 else 0) ≡ va = ground (arith, h.low) in
      (mmu_relocate-off va mode is_write dspace c h.off (omega (arith, h.low))).0
      ∙ ap (λ pa. ok pa c) same

  small : u16 va ≡ va
  small = omega (arith, h.low)

  pub cpu_read_word_gen_lem :
      cpu_read_word_gen va mode dspace c ≡ ok (read_word c.mem va) (count_read va c)
  unfolding cpu_read_word_gen check_nxm count_read
  cpu_read_word_gen_lem =
      rw (h.even, small)
        (bind_ok (mmu_relocate va false mode dspace)
            (λ pa.
              if is_iopage pa
              then io_read (bit_and pa 0o177777)
              else (do check_nxm pa; modify (count_read pa); gets (λ c1. read_word c1.mem pa)))
            c c va (relocated_to_itself false)
          ∙ rw (below_iopage va h.low) (
              bind_ok (check_nxm va)
                (λ _. do modify (count_read va); gets (λ c1. read_word c1.mem va)) c c tt
                (rw h.room refl)))

  pub cpu_write_word_mode_lem :
      (value : ℕ)
      → cpu_write_word_mode va mode dspace value c
        ≡ ok tt (record c { mem = write_word c.mem va value })
  unfolding cpu_write_word_mode check_nxm
  cpu_write_word_mode_lem value =
      let store : ℕ → Cpu → Cpu = λ pa c1. record c1 { mem = write_word c1.mem pa value } in
      rw (h.even, small)
        (bind_ok (mmu_relocate va true mode dspace)
            (λ pa.
              if is_iopage pa
              then io_write (bit_and pa 0o177777) value
              else (do check_nxm pa; modify (store pa)))
            c c va (relocated_to_itself true)
          ∙ rw (below_iopage va h.low)
              (bind_ok (check_nxm va) (λ _. modify (store va)) c c tt (rw h.room refl)))
