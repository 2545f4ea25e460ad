-- ===== src/Hash.antt =====
-- src/core/cpu/cpu.c: `fnv1a` and `pdp11_state_hash`. The hash reads the bytes of the state as a
-- little-endian machine lays them out, with the sizes of the fields of the headers; a bool is one
-- byte, 0 or 1.
pub mod OneByte
use emulator_pdp.Prelude.{
  ℕ, zero, suc, ◌+◌, ◌*◌, ◌/◌, ◌%◌, ◌^◌, bit_xor, if◌then◌else◌, u64, bool_to_ℕ, Bool, true, false,
  Option, none, some, List, [], ◌∷◌,
}
use emulator_pdp.State.{Cpu, Cache, Rk11, Rp11, Tm11, Rl11, Rx11}
use emulator_pdp.Memory.{mem_words}

abbrev pub fnv_prime : ℕ
fnv_prime = 0x100_0000_01b3

abbrev pub fnv_basis : ℕ
fnv_basis = 0xcbf2_9ce4_8422_2325

-- One round of `fnv1a`.
abbrev pub fnv_byte : ℕ → ℕ → ℕ
fnv_byte h b = u64 (bit_xor h b * fnv_prime)

-- The loop over the bytes of an object.
unfoldable pub fnv1a : ℕ → List ℕ → ℕ
fnv1a h [] = h
fnv1a h (b ∷ bs) = fnv1a (fnv_byte h b) bs

-- A number of `size` bytes, the low byte first.
unfoldable pub fnv_num : ℕ → ℕ → ℕ → ℕ
fnv_num zero v h = h
fnv_num (suc size) v h = fnv_num size (v / 256) (fnv_byte h (v % 256))

-- An array from index i on, with `left` elements to go.
unfoldable pub fnv_array : ℕ → (ℕ → ℕ) → ℕ → ℕ → ℕ → ℕ
fnv_array size f zero i h = h
fnv_array size f (suc left) i h = fnv_array size f left (i + 1) (fnv_num size (f i) h)

-- Two-byte registers that stand side by side.
unfoldable pub fnv_words : List ℕ → ℕ → ℕ
unfolding fnv_num
fnv_words [] h = h
fnv_words (v ∷ vs) h = fnv_words vs (fnv_num 2 v h)

abbrev pub fnv_flag : Bool → ℕ → ℕ
fnv_flag b h = fnv_num 1 (bool_to_ℕ b) h

-- An array of rows of two.
abbrev rows : (ℕ → ℕ → ℕ) → ℕ → ℕ
rows f i = f (i / 2) (i % 2)

hash_cpu : Cpu → ℕ → ℕ
unfolding fnv_array fnv_words fnv_num
hash_cpu c h0 =
    let h1 = fnv_num 2 c.psw (fnv_array 2 c.r 8 0 h0) in
    let h2 = fnv_flag c.trace_pending (fnv_flag c.waiting (fnv_flag c.halted h1)) in
    let h3 = fnv_flag c.cc_frozen (fnv_flag c.stack_yellow_pending h2) in
    fnv_array 2 c.stackfile 4 0 (fnv_array 2 (rows c.regfile) 12 0 (fnv_num 2 c.pirq h3))

hash_mmu : Cpu → ℕ → ℕ
unfolding fnv_array fnv_words
hash_mmu c h0 =
    let h1 = fnv_words (c.mmr0 ∷ c.mmr1 ∷ c.mmr2 ∷ c.mmr3 ∷ c.sr ∷ c.dr ∷ c.memerr ∷ []) h0 in
    let h2 = fnv_words (c.ccr ∷ c.hitmiss ∷ c.cpuerr ∷ c.mbrk ∷ c.stklim ∷ []) h1 in
    fnv_array 4 c.ub_map 32 0 (fnv_array 2 c.pdr 64 0 (fnv_array 2 c.par 64 0 h2))

hash_fp : Cpu → ℕ → ℕ
unfolding fnv_array fnv_words
hash_fp c h0 = fnv_words (c.fps ∷ c.fec ∷ c.fea ∷ []) (fnv_array 8 c.fac 6 0 h0)

-- The interrupts, the clock and the console.
hash_lines : Cpu → ℕ → ℕ
unfolding fnv_num fnv_words
hash_lines c h0 =
    let h1 = fnv_num 2 c.clk_csr (fnv_num 4 c.int_req h0) in
    let h2 = fnv_num 8 c.clk_next_ns (fnv_num 4 c.clk_tick_ns h1) in
    let h3 = fnv_words (c.tti_csr ∷ c.tti_buf ∷ c.tto_csr ∷ c.tto_buf ∷ []) h2 in
    fnv_num 8 c.tto_done_ns (fnv_flag c.tto_busy h3)

-- The end of each controller with a schedule.
abbrev hash_schedule : ℕ → Bool → ℕ → ℕ → ℕ
hash_schedule words busy done_ns h = fnv_num 8 done_ns (fnv_flag busy (fnv_num 4 words h))

hash_rk : Rk11 → ℕ → ℕ
unfolding fnv_num fnv_words
hash_rk d h =
    hash_schedule d.disk_words d.busy d.done_ns
      (fnv_words (d.rkcs ∷ d.rker ∷ d.rkwc ∷ d.rkba ∷ d.rkda ∷ d.rkds ∷ []) h)

hash_rp : Rp11 → ℕ → ℕ
unfolding fnv_num fnv_words
hash_rp d h = hash_schedule d.disk_words d.busy d.done_ns (
    fnv_words (d.da ∷ d.dc ∷ d.cc ∷ d.ds ∷ d.er1 ∷ [])
      (fnv_words (d.cs1 ∷ d.wc ∷ d.ba ∷ d.cs2 ∷ d.bae ∷ []) h))

hash_tm : Tm11 → ℕ → ℕ
unfolding fnv_num fnv_words
hash_tm d h =
    let h1 = fnv_words (d.sta ∷ d.cmd ∷ d.bc ∷ d.ca ∷ d.db ∷ d.rdl ∷ []) h in
    let h2 = fnv_flag d.wrp (fnv_num 4 d.pos (fnv_num 4 d.tape_len h1)) in
    fnv_num 8 d.done_ns (fnv_flag d.busy h2)

hash_rl : Rl11 → ℕ → ℕ
unfolding fnv_num fnv_words
hash_rl d h =
    hash_schedule d.disk_words d.busy d.done_ns
      (fnv_words (d.rlcs ∷ d.rlba ∷ d.rlda ∷ d.rlmp ∷ d.rlbae ∷ d.trk ∷ []) h)

hash_rx : Rx11 → ℕ → ℕ
unfolding fnv_num fnv_array fnv1a
hash_rx d h =
    let bytes =
      d.rxdb ∷ d.rxes ∷ d.ecode ∷ d.track ∷ d.sector ∷ d.state ∷ d.bptr ∷ d.cur_track ∷ [] in
    fnv_num 4 d.disk_bytes (fnv_array 1 d.buf 128 0 (fnv1a (fnv_num 2 d.rxcs h) bytes))

-- The fields of the cache lie side by side, without padding.
hash_cache : Cache → ℕ → ℕ
unfolding fnv_num fnv_array
hash_cache d h =
    let h1 = fnv_array 2 (rows d.tag) 512 0 h in
    let h2 = fnv_array 1 (rows (λ i w. bool_to_ℕ (d.valid i w))) 512 0 h1 in
    fnv_num 8 d.misses (fnv_array 1 d.victim 256 0 h2)

-- An attached image of `count` elements.
hash_media : ℕ → Option (ℕ → ℕ) → ℕ → ℕ → ℕ
unfolding fnv_array
hash_media size none count h = h
hash_media size (some m) count h = fnv_array size m count 0 h

unfoldable pub pdp11_state_hash : Cpu → ℕ
unfolding hash_cpu hash_mmu hash_fp hash_lines hash_rk hash_rp hash_tm hash_rl hash_rx hash_cache
    hash_media fnv_num fnv_array
pdp11_state_hash c =
    let h1 = hash_lines c (hash_fp c (hash_mmu c (hash_cpu c fnv_basis))) in
    let h2 = hash_rx c.rx (hash_rl c.rl (hash_tm c.tm (hash_rp c.rp (hash_rk c.rk h1)))) in
    let h3 = fnv_num 8 c.instr_count (fnv_num 8 c.time_ns (hash_cache c.cache h2)) in
    let h4 = hash_media 2 c.rk.disk c.rk.disk_words (fnv_array 2 c.mem mem_words 0 h3) in
    hash_media 1 c.tm.tape c.tm.tape_len (hash_media 2 c.rp.disk c.rp.disk_words h4)
