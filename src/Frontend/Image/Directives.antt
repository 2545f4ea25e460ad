-- ===== src/Frontend/Image/Directives.antt =====
-- src/frontend/headless/main.c: what the lines of an image leave in memory, and what is dumped.
use emulator_pdp.Prelude.{
  ℕ, ◌≤◌, ltb, List, [], ◌∷◌, ◌++◌, ◌≡◌, refl, ap, sym, ◌∙◌, arith, inl, inr, Bool-cases, length,
  length-append, take, take_all, take-append,
}
use mathlib.Core.List.{append-nil, append_assoc}
use emulator_pdp.Memory.Store.{Write, word, store, store_all}
use emulator_pdp.Frontend.Image.{
  Line, DumpRegion, max_dump_regions, Image, Directive, directive_of, parse_octal, put_directive,
  load_lines,
}

module _ (strtoul_8 : List ℕ → ℕ) where
  -- The word that a line deposits, if any.
  abbrev deposits : Directive → Line → List Write
  deposits Directive.word l = word (parse_octal strtoul_8 l.a) (parse_octal strtoul_8 l.b) ∷ []
  deposits _ l = []

  -- The words that the lines deposit, in their order.
  unfoldable pub all_deposits : List Line → List Write
  all_deposits [] = []
  all_deposits (l ∷ ls) = deposits (directive_of l) l ++ all_deposits ls

  -- The region that a line asks for, if any.
  abbrev dumps : Directive → Line → List DumpRegion
  dumps Directive.dump l =
      record { addr = parse_octal strtoul_8 l.a; count = parse_octal strtoul_8 l.b } ∷ []
  dumps _ l = []

  unfoldable pub all_dumps : List Line → List DumpRegion
  all_dumps [] = []
  all_dumps (l ∷ ls) = dumps (directive_of l) l ++ all_dumps ls

store_all-append :
    (xs ys : List Write) (m : ℕ → ℕ) → store_all (xs ++ ys) m ≡ store_all ys (store_all xs m)
unfolding store_all
store_all-append [] ys m = refl
store_all-append (x ∷ xs) ys m = store_all-append xs ys (store x m)

module _ (strtoul_8 strtoull_10 : List ℕ → ℕ) where
  put_directive-mem :
      (d : Directive) (l : Line) (im : Image)
      → (put_directive strtoul_8 strtoull_10 d l im).cpu.mem
        ≡ store_all (deposits strtoul_8 d l) im.cpu.mem
  unfolding put_directive store_all
  put_directive-mem Directive.skip l im = refl
  put_directive-mem Directive.word l im = refl
  put_directive-mem Directive.pc l im = refl
  put_directive-mem Directive.run l im = refl
  put_directive-mem Directive.dump l im =
      elim (Bool-cases (ltb (length im.regions) max_dump_regions)) [
        | inl e ↦ rw e refl
        | inr e ↦ rw e refl
      ]
  put_directive-mem Directive.warn l im = refl

  put_directive-regions :
      (d : Directive) (l : Line) (im : Image) (more : List DumpRegion)
      → length im.regions ≤ max_dump_regions
      → (length (put_directive strtoul_8 strtoull_10 d l im).regions ≤ max_dump_regions)
        × (take max_dump_regions ((put_directive strtoul_8 strtoull_10 d l im).regions ++ more)
            ≡ take max_dump_regions (im.regions ++ (dumps strtoul_8 d l ++ more)))
  unfolding put_directive
  put_directive-regions Directive.skip l im more h = (h, refl)
  put_directive-regions Directive.word l im more h = (h, refl)
  put_directive-regions Directive.pc l im more h = (h, refl)
  put_directive-regions Directive.run l im more h = (h, refl)
  put_directive-regions Directive.dump l im more h =
      elim (Bool-cases (ltb (length im.regions) max_dump_regions)) [
        | inl e ↦ rw e (
          ground (arith, length-append im.regions (dumps strtoul_8 Directive.dump l)),
          ap (take max_dump_regions)
              (append_assoc im.regions (dumps strtoul_8 Directive.dump l) more),
        )
        | inr e ↦
            let full : max_dump_regions ≤ length im.regions = ground arith in
            rw e (
              h,
              take-append max_dump_regions im.regions more full
                  ∙ sym (
                      take-append max_dump_regions im.regions
                        (dumps strtoul_8 Directive.dump l ++ more) full),
            )
      ]
  put_directive-regions Directive.warn l im more h = (h, refl)

  load_lines-take :
      (ls : List Line) (im : Image)
      → length im.regions ≤ max_dump_regions
      → (load_lines strtoul_8 strtoull_10 ls im).regions
        ≡ take max_dump_regions (im.regions ++ all_dumps strtoul_8 ls)
  unfolding load_lines all_dumps
  load_lines-take [] im h =
      sym (take_all max_dump_regions im.regions h)
      ∙ ap (take max_dump_regions) (sym (append-nil im.regions))
  load_lines-take (l ∷ ls) im h =
      let one = put_directive-regions (directive_of l) l im (all_dumps strtoul_8 ls) h in
      load_lines-take ls (put_directive strtoul_8 strtoull_10 (directive_of l) l im) one.0 ∙ one.1

  load_lines-mem :
      (ls : List Line) (im : Image)
      → (load_lines strtoul_8 strtoull_10 ls im).cpu.mem
        ≡ store_all (all_deposits strtoul_8 ls) im.cpu.mem
  unfolding load_lines all_deposits store_all
  load_lines-mem [] im = refl
  load_lines-mem (l ∷ ls) im =
      load_lines-mem ls (put_directive strtoul_8 strtoull_10 (directive_of l) l im)
      ∙ ap (store_all (all_deposits strtoul_8 ls)) (put_directive-mem (directive_of l) l im)
      ∙ sym (
          store_all-append (deposits strtoul_8 (directive_of l) l) (all_deposits strtoul_8 ls)
            im.cpu.mem)

  -- The lines of an image leave in memory what its deposits write, in their order, and of the
  -- regions that the lines ask for the first 32 are dumped, in their order.
  pub load_lines-store_all :
      (ls : List Line) (im : Image)
      → im.regions ≡ []
      → ((load_lines strtoul_8 strtoull_10 ls im).cpu.mem
          ≡ store_all (all_deposits strtoul_8 ls) im.cpu.mem)
        × ((load_lines strtoul_8 strtoull_10 ls im).regions
            ≡ take max_dump_regions (all_dumps strtoul_8 ls))
  load_lines-store_all ls im e = (
    load_lines-mem ls im,
    load_lines-take ls im (omega (arith, ap length e))
        ∙ ap (λ rs. take max_dump_regions (rs ++ all_dumps strtoul_8 ls)) e,
  )
