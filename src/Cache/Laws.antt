-- ===== src/Cache/Laws.antt =====
-- The cache as a set-associative store: what a read finds, keeps and counts.
use emulator_pdp.Prelude.{
  ℕ, ◌+◌, ◌^◌, ◌<◌, ◌||◌, true, false, if◌then◌else◌, u64, List, [], ◌∷◌, ◌≡◌, ◌≢◌, ◌⊎◌, refl,
  arith, inl,
}
use emulator_pdp.State.{Cache}
use emulator_pdp.Cache.{set_of, tag_of, way_hits, read, reset}

-- The block of an address is held in one of the two ways of its set.
abbrev pub Holds : Cache → ℕ → Type 0
Holds c pa = (way_hits c (set_of pa) (tag_of pa) 0 || way_hits c (set_of pa) (tag_of pa) 1) ≡ true

-- What holds between two reads: each victim is a way, and no block is held twice.
pub record IsCoherent (c : Cache) : Type 0 where
  pub victim_way : (s : ℕ) → (c.victim s ≡ 0) ⊎ (c.victim s ≡ 1)
  pub distinct : (s : ℕ) → c.valid s 0 ≡ true → c.valid s 1 ≡ true → c.tag s 0 ≢ c.tag s 1

pub reset-IsCoherent : IsCoherent reset
unfolding reset
reset-IsCoherent = record { victim_way = λ s. inl refl; distinct = λ s p q. absurd (cc) }

-- From a coherent cache, each read leaves a coherent one.
pub read-IsCoherent : (pa : ℕ) (c : Cache) → IsCoherent c → IsCoherent (read pa c).0
unfolding read
read-IsCoherent pa c h = record {
  victim_way = λ s. ground (arith, h.victim_way s, h.victim_way (set_of pa));
  distinct = λ s. ground (arith, h.distinct s, h.victim_way s);
}

-- From a coherent cache, a block that was read is held afterwards, whether the read hit or missed.
pub read-Holds : (pa : ℕ) (c : Cache) → IsCoherent c → Holds (read pa c).0 pa
unfolding read
read-Holds pa c h = ground (arith, h.victim_way (set_of pa))

-- A read hits exactly where the block is held, and then changes nothing.
read_hit : (pa : ℕ) (c : Cache) → Holds c pa → read pa c ≡ (c, true)
unfolding read
read_hit pa c h = ground arith

-- From a coherent cache, a block that a read had to fetch survives the next read, whatever its
-- address: the next victim in its set is the other way.
read_miss_survives :
    (pa pb : ℕ) (c : Cache)
    → IsCoherent c
    → (read pa c).1 ≡ false
    → Holds (read pb (read pa c).0).0 pa
unfolding read
read_miss_survives pa pb c h miss = ground (arith, h.victim_way (set_of pa))

-- A run of reads, with the number of them that missed.
abbrev pub reads : List ℕ → Cache → Cache × ℕ
reads [] c = (c, 0)
reads (pa ∷ pas) c =
    let (c', hit) = read pa c in let (last, n) = reads pas c' in (last, if hit then n else n + 1)

read_counts :
    (pa : ℕ) (c : Cache)
    → (read pa c).0.misses ≡ (if (read pa c).1 then c.misses else u64 (c.misses + 1))
unfolding read
read_counts pa c = ground arith

-- Over any run of reads the counter, which starts below 2^64, grows by the number of reads that
-- missed, modulo 2^64.
pub reads-misses :
    (pas : List ℕ) (c : Cache)
    → c.misses < 2 ^ 64
    → (reads pas c).0.misses ≡ u64 (c.misses + (reads pas c).1)
reads-misses [] c h = omega arith
reads-misses (pa ∷ pas) c h = ground (arith, read_counts pa c, reads-misses pas (read pa c).0)
