-- ===== src/Files/Parse.antt =====
-- `parseCodeOwnersFile`, `parseCodeOwnersLine` and `normalizePattern`.
use revchat.Base.{
  Bool, not, ◌&&◌, ◌||◌, List, [], ◌∷◌, ◌++◌, Option, none, some, if◌then◌else◌, map, is_empty,
}
use revchat.Base.Dict.{lookup, put}
use revchat.Base.Text.{Text, codes, text_eq, has_prefix}
use revchat.Channel.Name.{trim_space}
use revchat.Files.Lines.{
  cut_before, trim_prefix_of, trim_text_prefix, trim, has_suffix, line_pattern, members_pattern,
  find_all,
}

pub record CodeOwners : Type 0 where
  pub path_list : List Text
  pub ignore_list : List Text
  pub groups : List (Text × List Text)
  pub paths : List (Text × List Text)
  pub users : List (Text × Bool)

abbrev pub no_owners : CodeOwners
no_owners = record { path_list = []; ignore_list = []; groups = []; paths = []; users = [] }

-- What a line gives: a pattern or a group, empty if it is not there, and the members.
pub record Line : Type 0 where
  pub path_pattern : Text
  pub group : Text
  pub members : List Text

abbrev pub no_line : Line
no_line = record { path_pattern = []; group = []; members = [] }

unfoldable pub member_name : Text → Text
unfolding trim_space trim_text_prefix trim
member_name m = trim b'"' (trim_text_prefix (trim_space m) (b'@' ∷ []))

unfoldable pub parsed_line : Option (Text × Text) → Line
unfolding member_name find_all members_pattern has_prefix trim_prefix_of
parsed_line none = no_line
parsed_line (some (first, rest)) =
    let members = map member_name (find_all members_pattern rest) in
    let marker = codes "@@" in
    if has_prefix first marker
    then (record { path_pattern = []; group = trim_prefix_of marker first; members = members })
    else (record { path_pattern = first; group = []; members = members })

-- `parseCodeOwnersLine`
unfoldable pub parse_code_owners_line : Text → Line
unfolding cut_before trim_space line_pattern parsed_line has_prefix
parse_code_owners_line line =
    let line' = trim_space (cut_before b'#' line) in
    if is_empty line' || has_prefix line' (codes "Check(")
    then no_line
    else parsed_line (line_pattern line')

-- The three steps of `normalizePattern`.
unfoldable pub anchored : Text → Text
unfolding has_prefix
anchored pattern =
    if not (has_prefix pattern (codes "/")) && not (has_prefix pattern (codes "**/"))
    then codes "**/" ++ pattern
    else pattern

unfoldable pub opened : Text → Text
unfolding has_suffix
opened pattern = if has_suffix pattern (codes "/") then pattern ++ codes "**/*" else pattern

unfoldable pub closed : Text → Text
unfolding has_suffix
closed pattern = if has_suffix pattern (codes "/**") then pattern ++ codes "/*" else pattern

unfoldable pub normalize_pattern : Text → Text
unfolding anchored opened closed
normalize_pattern pattern = closed (opened (anchored pattern))

-- `m[key]` and `m[key] = append(m[key], values...)`
abbrev pub values_of {ℓ} : {A : Type ℓ} → Text → List (Text × List A) → List A
values_of key m = elim (lookup key m) [ none ↦ [] | some l ↦ l ]

abbrev pub append_to {ℓ} :
    {A : Type ℓ} → Text → List A → List (Text × List A) → List (Text × List A)
append_to key values m = put key (values_of key m ++ values) m

-- The body of the loop of `parseCodeOwnersFile`.
unfoldable pub add_line : Line → CodeOwners → CodeOwners
unfolding has_prefix normalize_pattern trim_prefix_of lookup put
add_line line c =
    if not (is_empty line.path_pattern)
    then (if has_prefix line.path_pattern (codes "!")
        then (record c {
          ignore_list =
              c.ignore_list
              ++ normalize_pattern (trim_prefix_of (codes "!") line.path_pattern) ∷ [];
        })
        else (let pattern = normalize_pattern line.path_pattern in
            record c {
              path_list = c.path_list ++ pattern ∷ [];
              paths = append_to pattern line.members c.paths;
            }))
    else if not (is_empty line.group)
    then (record c { groups = append_to line.group line.members c.groups })
    else c

unfoldable pub add_lines : List Text → CodeOwners → CodeOwners
unfolding add_line parse_code_owners_line
add_lines [] c = c
add_lines (line ∷ rest) c = add_lines rest (add_line (parse_code_owners_line line) c)
