-- ===== src/Files/Lines.antt =====
-- Lines and words: what pkg/files uses of package strings, and the matches of its two regular
-- expressions.
use revchat.Base.{
  ℕ, zero, suc, ◌+◌, Bool, not, ◌&&◌, ◌||◌, List, [], ◌∷◌, ◌++◌, Option, none, some, if◌then◌else◌,
  nat_eq, is_empty, take, length,
}
use revchat.Base.Text.{Text, has_prefix}
use revchat.Channel.Pattern.{is_word, span, behind, within}

-- `strings.Lines`: each line with its "\n". The first argument is the line so far, backwards.
unfoldable pub lines_from : Text → Text → List Text
lines_from line [] = if is_empty line then [] else line ∷ []
lines_from line (c ∷ s) =
    let longer = line ++ c ∷ [] in
    let next = lines_from [] s in
    let same = lines_from longer s in if nat_eq c 10 then longer ∷ next else same

unfoldable pub lines : Text → List Text
unfolding lines_from
lines s = lines_from [] s

-- The part before the first separator, the whole text if there is none: `strings.Cut`.
unfoldable pub cut_before : ℕ → Text → Text
cut_before sep [] = []
cut_before sep (c ∷ s) = let rest = cut_before sep s in if nat_eq c sep then [] else c ∷ rest

unfoldable pub trim_prefix_of : Text → Text → Text
trim_prefix_of [] s = s
trim_prefix_of (p ∷ ps) [] = []
trim_prefix_of (p ∷ ps) (c ∷ s) = trim_prefix_of ps s

-- `strings.TrimPrefix`
unfoldable pub trim_text_prefix : Text → Text → Text
unfolding trim_prefix_of has_prefix
trim_text_prefix s p = if has_prefix s p then trim_prefix_of p s else s

-- `strings.Trim` of one character.
unfoldable pub trim_start : ℕ → Text → Text
trim_start p [] = []
trim_start p (c ∷ s) = let rest = trim_start p s in if nat_eq c p then rest else c ∷ s

unfoldable pub trim_end : ℕ → Text → Text
trim_end p [] = []
trim_end p (c ∷ s) = let rest = trim_end p s in if nat_eq c p && is_empty rest then [] else c ∷ rest

unfoldable pub trim : ℕ → Text → Text
unfolding trim_start trim_end
trim p s = trim_end p (trim_start p s)

-- `strings.HasSuffix`
unfoldable pub has_suffix : Text → Text → Bool
unfolding has_prefix
has_suffix [] p = is_empty p
has_suffix (c ∷ s) p =
    (nat_eq (length (c ∷ s)) (length p) && has_prefix (c ∷ s) p) || has_suffix s p

-- `\s` of package regexp
abbrev pub is_blank : ℕ → Bool
is_blank c = within 9 10 c || within 12 13 c || nat_eq c 32

abbrev pub is_filled : ℕ → Bool
is_filled c = not (is_blank c)

-- `^(@*\S+)\s*(.*)$` on a line without its end: the two groups.
unfoldable pub line_pattern : Text → Option (Text × Text)
unfolding span behind
line_pattern line =
    if nat_eq (span is_filled line) 0
    then none
    else some (take (span is_filled line) line, behind is_blank (behind is_filled line))

abbrev pub in_name : ℕ → Bool
in_name c = is_word c || is_blank c

-- The length of `[\w\s]+"?` at the start of a text, with what stands before it, 0 for no match.
unfoldable pub name_match : ℕ → Text → ℕ
unfolding is_word span behind
name_match before s =
    if nat_eq (span in_name s) 0
    then 0
    else before + span in_name s + (if has_prefix (behind in_name s) (b'"' ∷ []) then 1 else 0)

unfoldable pub quoted_match : ℕ → Text → ℕ
unfolding name_match
quoted_match before [] = 0
quoted_match before (c ∷ s) =
    if nat_eq c b'"' then name_match (before + 1) s else name_match before (c ∷ s)

-- `@{1,2}"?[\w\s]+"?`. No part can start with what the part before it takes, so that the greedy
-- match is the only one to try.
unfoldable pub members_pattern : Text → ℕ
unfolding quoted_match
members_pattern [] = 0
members_pattern (c ∷ []) = 0
members_pattern (c ∷ d ∷ s) =
    if nat_eq c b'@'
    then (if nat_eq d b'@' then quoted_match 2 s else quoted_match 1 (d ∷ s))
    else 0

-- `FindAllString`: leftmost matches, none inside another; the number counts the characters of a
-- match that are still to be passed over.
unfoldable pub find_all_from : (Text → ℕ) → Text → ℕ → List Text
find_all_from match [] k = []
find_all_from match (c ∷ s) (suc k) = find_all_from match s k
find_all_from match (c ∷ s) zero = elim (match (c ∷ s)) [
  | zero ↦ find_all_from match s zero
  | suc k ↦ take (suc k) (c ∷ s) ∷ find_all_from match s k
]

unfoldable pub find_all : (Text → ℕ) → Text → List Text
unfolding find_all_from
find_all match s = find_all_from match s zero
