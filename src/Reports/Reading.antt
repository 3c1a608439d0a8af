-- ===== src/Reports/Reading.antt =====
-- Which time `NormalizeTime` reads out of each form of a time that a user can write.
use revchat.Base.{ℕ, if◌then◌else◌, ltb}
use revchat.Base.Text.{Text, codes, text_eq}

abbrev half : ℕ → Text
half h = if ltb h 12 then codes "AM" else codes "PM"

-- The indicators that a user writes.
abbrev indicator : ℕ → Text
indicator h = if ltb h 12 then codes "am" else codes "pm"
