-- ===== src/Channel/Pattern.antt =====
-- The regular expressions of `NormalizeChannelName`. A matcher gives the length of the match at the
-- start of a text, 0 if there is none. No class holds the character behind it in its pattern, so
-- that the greedy match is the only one to try.
use revchat.Base.{
  ℕ, zero, suc, ◌+◌, Bool, not, ◌&&◌, ◌||◌, [], ◌∷◌, ◌++◌, if◌then◌else◌, leb, nat_eq, ◌≡◌, refl,
  ap, ◌∙◌,
}
use revchat.Base.Text.{Text}

abbrev pub within : ℕ → ℕ → ℕ → Bool
within lo hi c = leb lo c && leb c hi

-- `[A-Z]`, `\d`, `\w`, `[_-]`
unfoldable pub is_upper : ℕ → Bool
is_upper c = within b'A' b'Z' c

unfoldable pub is_digit : ℕ → Bool
is_digit c = within b'0' b'9' c

unfoldable pub is_word : ℕ → Bool
is_word c = within b'a' b'z' c || within b'A' b'Z' c || within b'0' b'9' c || nat_eq c b'_'

unfoldable pub is_separator : ℕ → Bool
is_separator c = nat_eq c b'_' || nat_eq c b'-'

-- `[a-z0-9_-]`
unfoldable pub is_valid : ℕ → Bool
is_valid c = within b'a' b'z' c || within b'0' b'9' c || nat_eq c b'_' || nat_eq c b'-'

abbrev pub is_invalid : ℕ → Bool
is_invalid c = not (is_valid c)

-- The length of the longest prefix in a class.
unfoldable pub span : (ℕ → Bool) → Text → ℕ
span p [] = 0
span p (c ∷ s) = if p c then suc (span p s) else 0

-- What is left behind that prefix.
unfoldable pub behind : (ℕ → Bool) → Text → Text
behind p [] = []
behind p (c ∷ s) = let rest = behind p s in if p c then rest else c ∷ s

abbrev in_annotation : ℕ → Bool
in_annotation c = is_word c || nat_eq c b' ' || nat_eq c b'-'

closing : ℕ → Text → ℕ
closing n [] = 0
closing n (c ∷ s) = if nat_eq c b']' then n + 2 else 0

-- `\[[\w -]*\]`
unfoldable pub annotation : Text → ℕ
unfolding is_word closing span behind
annotation [] = 0
annotation (c ∷ s) =
    if nat_eq c b'[' then closing (span in_annotation s) (behind in_annotation s) else 0

ticket_number : ℕ → Text → ℕ
ticket_number n [] = 0
ticket_number n (c ∷ s) =
    if nat_eq c b'-' && leb 5 (span is_digit s) then n + 1 + span is_digit s else 0

-- `[A-Z]{3,}-\d{5,}`
unfoldable pub ticket : Text → ℕ
unfolding ticket_number is_upper is_digit span behind
ticket s =
    if leb 3 (span is_upper s) then ticket_number (span is_upper s) (behind is_upper s) else 0

-- ['`]
unfoldable pub apostrophe : Text → ℕ
apostrophe [] = 0
apostrophe (c ∷ s) = if nat_eq c b'\'' || nat_eq c b'`' then 1 else 0

-- `[^a-z0-9_-]+`
unfoldable pub invalid_characters : Text → ℕ
unfolding is_valid span
invalid_characters s = span is_invalid s

-- `[_-]{2,}`
unfoldable pub separators : Text → ℕ
unfolding is_separator span
separators s = if leb 2 (span is_separator s) then span is_separator s else 0

-- `ReplaceAllString`: leftmost matches, none inside another. The number counts the characters of a
-- match that are still to be passed over.
unfoldable pub replace_from : (Text → ℕ) → Text → ℕ → Text → Text
replace_from match new k [] = []
replace_from match new (suc k) (c ∷ s) = replace_from match new k s
replace_from match new zero (c ∷ s) = elim (match (c ∷ s)) [
  | zero ↦ c ∷ replace_from match new zero s
  | suc k ↦ new ++ replace_from match new k s
]

unfoldable pub replace_all : (Text → ℕ) → Text → Text → Text
unfolding replace_from
replace_all match new s = replace_from match new zero s

-- No match starts anywhere in the text.
abbrev pub NeverMatches : (Text → ℕ) → Text → Type 0
NeverMatches match [] = Unit
NeverMatches match (c ∷ s) = (match (c ∷ s) ≡ 0) × NeverMatches match s

module _ (match : Text → ℕ) (new : Text) where
  -- One step of a replacement.
  pub replace_from-miss :
      (c : ℕ) (s : Text)
      → match (c ∷ s) ≡ 0
      → replace_from match new zero (c ∷ s) ≡ c ∷ replace_from match new zero s
  unfolding replace_from
  replace_from-miss c s e = rw (e, replace_from)

  pub replace_from-hit :
      (c : ℕ) (s : Text) (k : ℕ)
      → match (c ∷ s) ≡ suc k
      → replace_from match new zero (c ∷ s) ≡ new ++ replace_from match new k s
  unfolding replace_from
  replace_from-hit c s k e = rw (e, replace_from)

  pub replace_from-skip :
      (c : ℕ) (s : Text) (k : ℕ)
      → replace_from match new (suc k) (c ∷ s) ≡ replace_from match new k s
  unfolding replace_from
  replace_from-skip c s k = refl

  pub replace_from-NeverMatches :
      (s : Text) → NeverMatches match s → replace_from match new zero s ≡ s
  unfolding replace_from
  replace_from-NeverMatches [] h = refl
  replace_from-NeverMatches (c ∷ s) h =
      replace_from-miss c s h.0 ∙ ap (◌∷◌ c) (replace_from-NeverMatches s h.1)
