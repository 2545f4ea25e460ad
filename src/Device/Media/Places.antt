-- ===== src/Device/Media/Places.antt =====
-- A write to an attached buffer, place by place.
use emulator_pdp.Prelude.{ℕ, ◌==◌, if◌then◌else◌, true, Option, none, some, ◌≡◌, refl}
use emulator_pdp.Model.{is_attached}
use emulator_pdp.Device.Media.{media_get, media_set}

pub media_get-media_set :
    (t : Option (ℕ → ℕ)) (at v i : ℕ)
    → is_attached t ≡ true
    → media_get (media_set t at v) i ≡ (if at == i then v else media_get t i)
media_get-media_set none at v i h = absurd (cc)
media_get-media_set (some t) at v i h = refl

pub is_attached-media_set :
    (t : Option (ℕ → ℕ)) (at v : ℕ) → is_attached (media_set t at v) ≡ is_attached t
is_attached-media_set none at v = refl
is_attached-media_set (some t) at v = refl
