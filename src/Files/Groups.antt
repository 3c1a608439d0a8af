-- ===== src/Files/Groups.antt =====
-- `expandGroups` and `expandMember`. The recursion over groups has fuel, since a group that holds
-- itself makes it endless: `none` stands for a call that has not returned.
use revchat.Base.{
  ℕ, zero, suc, Bool, true, false, List, [], ◌∷◌, ◌++◌, Option, none, some, if◌then◌else◌, nat_eq,
  is_empty, length,
}
use revchat.Base.Dict.{lookup, put}
use revchat.Base.Sorting.{sort_compact}
use revchat.Base.Text.{Text, codes, text_eq, has_prefix}
use revchat.Files.Parse.{CodeOwners, no_owners, add_lines}
use revchat.Files.Lines.{lines}

abbrev pub is_group : Text → Bool
is_group name = has_prefix name (codes "@")

-- What a call returns: the users and their number, 0 for a failure, and the changed owners.
abbrev pub Expansion : Type 0
Expansion = (List Text × ℕ) × CodeOwners

-- What follows the expansion of a member in the loop below: the end with nothing, if the member has
-- no users, or the rest of the loop.
abbrev pub Members : Type 0
Members = Option (Option (List Text) × CodeOwners)

unfoldable pub next_member :
    (List Text → CodeOwners → Members) → List Text → Option Expansion → Members
next_member rest expanded none = none
next_member rest expanded (some ((users, size), c)) =
    if nat_eq size 0 then some (none, c) else rest (expanded ++ users) c

-- The loop over the members of a group or a path, with what was expanded before.
unfoldable pub expand_members :
    (Text → CodeOwners → Option Expansion) → List Text → List Text → CodeOwners → Members
unfolding next_member
expand_members expand [] expanded c = some (some expanded, c)
expand_members expand (member ∷ rest) expanded c =
    next_member (expand_members expand rest) expanded (expand member c)

-- The end of `expandMember` for a group: sorting and memoization.
unfoldable pub memoized : Text → Members → Option Expansion
unfolding sort_compact put
memoized name none = none
memoized name (some (none, c)) = some (([], 0), c)
memoized name (some (some expanded, c)) =
    let users = sort_compact expanded in
    some ((users, length users), record c { groups = put name users c.groups })

-- `expandMember`
unfoldable pub expand_member : ℕ → Text → CodeOwners → Option Expansion
unfolding has_prefix put lookup expand_members memoized
expand_member zero name c = none
expand_member (suc fuel) name c = elim (is_group name) [
  | false ↦ some ((name ∷ [], 1), record c { users = put name true c.users })
  | true ↦ elim (lookup name c.groups) [
    | none ↦ some (([], 0), c)
    | some members ↦ memoized name (expand_members (expand_member fuel) members [] c)
  ]
]

-- What the loop of `expandGroups` returns: the expanded paths, or nothing after a failure.
abbrev pub Paths : Type 0
Paths = Option (Option (List (Text × List Text)) × CodeOwners)

unfoldable pub next_path : (List Text → CodeOwners → Paths) → Members → Paths
unfolding sort_compact
next_path rest none = none
next_path rest (some (none, c)) = some (none, c)
next_path rest (some (some users, c)) = rest (sort_compact users) c

-- That loop, with the paths that are expanded.
unfoldable pub expand_paths :
    ℕ → List (Text × List Text) → List (Text × List Text) → CodeOwners → Paths
unfolding expand_members expand_member next_path put
expand_paths fuel [] expanded c = some (some expanded, c)
expand_paths fuel ((pattern', members) ∷ rest) expanded c =
    next_path (λ users c'. expand_paths fuel rest (put pattern' users expanded) c')
      (expand_members (expand_member fuel) members [] c)

-- `expandGroups`: after a failure the paths stay as they were.
abbrev pub with_paths : Paths → Option CodeOwners
with_paths none = none
with_paths (some (none, c)) = some c
with_paths (some (some paths, c)) = some (record c { paths = paths })

unfoldable pub expand_groups : ℕ → CodeOwners → Option CodeOwners
unfolding expand_paths
expand_groups fuel c = with_paths (expand_paths fuel c.paths [] c)

-- `slices.Reverse`
unfoldable pub reversed : List Text → List Text
reversed [] = []
reversed (x ∷ xs) = reversed xs ++ x ∷ []

-- `parseCodeOwnersFile`: no owners for an empty file.
unfoldable pub parse_code_owners_file : ℕ → Text → Bool → Option (Option CodeOwners)
unfolding add_lines lines reversed expand_groups
parse_code_owners_file fuel content flatten =
    let parsed = add_lines (lines content) no_owners in
    let c : CodeOwners = record parsed { path_list = reversed parsed.path_list } in
    if is_empty content
    then some none
    else if flatten
    then elim (expand_groups fuel c) [ none ↦ none | some c' ↦ some (some c') ]
    else some (some c)
