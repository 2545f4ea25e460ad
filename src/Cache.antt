-- ===== src/Cache.antt =====
-- src/core/cache: the timing model of the 11/70 cache, two ways of 256 sets.
pub mod Laws
use emulator_pdp.Prelude.{
  ℕ, ◌+◌, bit_and, bit_xor, ◌>>>◌, u8, u16, u64, ◌==◌, ◌&&◌, ◌||◌, Bool, true, false, update,
  if◌then◌else◌,
}
use emulator_pdp.State.{Cache}

unfoldable pub reset : Cache
reset = record { tag = λ s w. 0; valid = λ s w. false; victim = λ s. 0; misses = 0 }

-- The set and the tag of a physical address.
abbrev pub set_of : ℕ → ℕ
set_of pa = bit_and (pa >>> 2) 0o377

abbrev pub tag_of : ℕ → ℕ
tag_of pa = u16 (bit_and (pa >>> 10) 0o7777)

abbrev pub way_hits : Cache → ℕ → ℕ → ℕ → Bool
way_hits c s t w = c.valid s w && c.tag s w == t

unfoldable pub read : ℕ → Cache → Cache × Bool
read pa c =
    let s = set_of pa in
    let t = tag_of pa in
    if way_hits c s t 0 || way_hits c s t 1
    then (c, true)
    else let w = c.victim s in
      (
        record c {
          tag = update c.tag s (update (c.tag s) w t);
          valid = update c.valid s (update (c.valid s) w true);
          victim = update c.victim s (u8 (bit_xor w 1));
          misses = u64 (c.misses + 1);
        },
        false,
      )
