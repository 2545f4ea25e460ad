-- ===== src/Frontend/Options/Lines.antt =====
-- src/frontend: options written on a command line are read back.
use emulator_pdp.Prelude.{
  if◌then◌else◌, Bool, true, false, Option, none, some, List, [], ◌∷◌, ◌++◌, ◌≡◌, refl, ◌∙◌, ℕ,
}
use emulator_pdp.Frontend.Options.{
  WindowOptions, window_defaults, parse_window, boot_rk_flag, frames_flag, scale_flag, ips_flag,
  selftest_flag,
}

-- An option with its value, where it is set.
abbrev argument : List ℕ → Option (List ℕ) → List (List ℕ)
argument flag none = []
argument flag (some value) = flag ∷ value ∷ []

abbrev switch : Bool → List (List ℕ)
switch true = selftest_flag ∷ []
switch false = []

unfoldable pub command_line : WindowOptions → List (List ℕ)
command_line o =
    argument boot_rk_flag o.disk_path
    ++ (argument frames_flag o.frames_limit
        ++ (argument scale_flag o.scale ++ (argument ips_flag o.ips ++ switch o.selftest)))

abbrev or_else : Option (List ℕ) → Option (List ℕ) → Option (List ℕ)
or_else none d = d
or_else (some value) d = some value

or_else-none : (v : Option (List ℕ)) → or_else v none ≡ v
or_else-none none = refl
or_else-none (some value) = refl

module _ (rest : List (List ℕ)) (o : WindowOptions) where
  parse_disk :
      (v : Option (List ℕ))
      → parse_window (argument boot_rk_flag v ++ rest) o
        ≡ parse_window rest (record o { disk_path = or_else v o.disk_path })
  unfolding parse_window
  parse_disk none = refl
  parse_disk (some value) = refl

  parse_frames :
      (v : Option (List ℕ))
      → parse_window (argument frames_flag v ++ rest) o
        ≡ parse_window rest (record o { frames_limit = or_else v o.frames_limit })
  unfolding parse_window
  parse_frames none = refl
  parse_frames (some value) = refl

  parse_scale :
      (v : Option (List ℕ))
      → parse_window (argument scale_flag v ++ rest) o
        ≡ parse_window rest (record o { scale = or_else v o.scale })
  unfolding parse_window
  parse_scale none = refl
  parse_scale (some value) = refl

  parse_ips :
      (v : Option (List ℕ))
      → parse_window (argument ips_flag v ++ rest) o
        ≡ parse_window rest (record o { ips = or_else v o.ips })
  unfolding parse_window
  parse_ips none = refl
  parse_ips (some value) = refl

parse_switch :
    (b : Bool) (o : WindowOptions)
    → parse_window (switch b) o ≡ (record o { selftest = if b then true else o.selftest })
unfolding parse_window
parse_switch true o = refl
parse_switch false o = refl

same_flag : (b : Bool) → (if b then true else false) ≡ b
same_flag true = refl
same_flag false = refl

-- The options of the window, written as a command line with any values, flags among them, are
-- parsed to the same options.
pub parse_window-command_line :
    (o : WindowOptions) → parse_window (command_line o) window_defaults ≡ o
unfolding command_line
parse_window-command_line o =
    parse_disk _ _ o.disk_path
    ∙ parse_frames _ _ o.frames_limit
    ∙ parse_scale _ _ o.scale
    ∙ parse_ips _ _ o.ips
    ∙ parse_switch o.selftest _
    ∙ (λ i. record {
      disk_path = or_else-none o.disk_path i;
      frames_limit = or_else-none o.frames_limit i;
      scale = or_else-none o.scale i;
      ips = or_else-none o.ips i;
      selftest = same_flag o.selftest i;
    })
