-- ===== src/Channel/Name.antt =====
-- `NormalizeChannelName`.
use revchat.Base.{ℕ, Bool, ◌&&◌, ◌||◌, [], ◌∷◌, if◌then◌else◌, ltb, nat_eq, length, take, is_empty}
use revchat.Base.Text.{Text, Unicode, to_lower}
use revchat.Channel.Pattern.{
  within, annotation, ticket, apostrophe, invalid_characters, separators, replace_all,
}

-- `unicode.IsSpace`
unfoldable pub is_space : ℕ → Bool
is_space c =
    within 9 13 c
    || nat_eq c 32
    || nat_eq c 0x85
    || nat_eq c 0xA0
    || nat_eq c 0x1680
    || within 0x2000 0x200A c
    || within 0x2028 0x2029 c
    || nat_eq c 0x202F
    || nat_eq c 0x205F
    || nat_eq c 0x3000

unfoldable pub trim_left : Text → Text
trim_left [] = []
trim_left (c ∷ s) = let rest = trim_left s in if is_space c then rest else c ∷ s

unfoldable pub trim_right : Text → Text
trim_right [] = []
trim_right (c ∷ s) = let rest = trim_right s in if is_space c && is_empty rest then [] else c ∷ rest

-- `strings.TrimSpace`
unfoldable pub trim_space : Text → Text
unfolding is_space trim_left trim_right
trim_space s = trim_right (trim_left s)

-- `strings.TrimPrefix` and `strings.TrimSuffix` of one character.
unfoldable pub trim_prefix : ℕ → Text → Text
trim_prefix p [] = []
trim_prefix p (c ∷ s) = if nat_eq c p then s else c ∷ s

unfoldable pub trim_suffix : ℕ → Text → Text
trim_suffix p [] = []
trim_suffix p (c ∷ []) = if nat_eq c p then [] else c ∷ []
trim_suffix p (c ∷ d ∷ s) = c ∷ trim_suffix p (d ∷ s)

abbrev pub dash : Text
dash = b'-' ∷ []

module _ ⦃u : Unicode⦄ where
  -- The part of `NormalizeChannelName` up to the removal of apostrophes, and the replacement of
  -- invalid characters after it.
  unfoldable pub cleaned : Text → Text
  unfolding annotation ticket apostrophe replace_all to_lower trim_space
  cleaned name =
      let plain_name = replace_all ticket [] (replace_all annotation [] name) in
      replace_all apostrophe [] (trim_space (to_lower plain_name))

  unfoldable pub only_valid : Text → Text
  unfolding cleaned invalid_characters replace_all
  only_valid name = replace_all invalid_characters dash (cleaned name)

  -- `NormalizeChannelName`. The text is ASCII where it is cut, so that bytes are characters there.
  unfoldable pub normalize_channel_name : Text → ℕ → Text
  unfolding only_valid separators replace_all trim_prefix trim_suffix
  normalize_channel_name [] max_len = []
  normalize_channel_name (c ∷ s) max_len =
      let minimized = replace_all separators dash (only_valid (c ∷ s)) in
      let started = trim_prefix b'_' (trim_prefix b'-' minimized) in
      let cut = if ltb max_len (length started) then take max_len started else started in
      trim_suffix b'_' (trim_suffix b'-' cut)
