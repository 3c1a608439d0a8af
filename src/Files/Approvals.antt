-- ===== src/Files/Approvals.antt =====
-- `getOwners`, `ignorePath` and `allApproved`. The glob library `doublestar` is a parameter: whether
-- a pattern matches a path, or none for a bad pattern.
use revchat.Base.{
  ℕ, zero, suc, ◌+◌, Bool, true, false, not, ◌&&◌, ◌||◌, List, [], ◌∷◌, Option, none, some,
  if◌then◌else◌, ltb, nat_eq, length, contains,
}
use revchat.Base.Dict.{lookup}
use revchat.Base.Text.{Text, codes, text_eq, has_prefix}
use revchat.Files.Groups.{is_group}
use revchat.Files.Parse.{CodeOwners, values_of}

abbrev pub Glob : Type 0
Glob = Text → Text → Option Bool

abbrev pub rooted : Text → Text
rooted path = if has_prefix path (codes "/") then path else b'/' ∷ path

module _ (glob : Glob) where
  -- The loop of `ignorePath`, which skips bad patterns.
  unfoldable pub ignored_by : List Text → Text → Bool
  ignored_by [] path = false
  ignored_by (pattern' ∷ rest) path =
      let more = ignored_by rest path in
      elim (glob pattern' path) [ none ↦ more | some match ↦ if match then true else more ]

  -- The loop of `getOwners`: none for the error of a bad pattern.
  unfoldable pub owners_by : CodeOwners → List Text → Text → Option (List Text)
  unfolding ignored_by lookup
  owners_by c [] path = some []
  owners_by c (pattern' ∷ rest) path =
      let more = owners_by c rest path in
      elim (glob pattern' path) [
        | none ↦ none
        | some match ↦
            if match && not (ignored_by c.ignore_list path)
            then some (values_of pattern' c.paths)
            else more
      ]

  unfoldable pub get_owners : CodeOwners → Text → Option (List Text)
  unfolding owners_by has_prefix
  get_owners c path = owners_by c c.path_list (rooted path)

abbrev pub fallback_owners : Text
fallback_owners = codes "@FallbackOwners"

-- The loop of `allApproved`: the number of approvals, none if a group is not found. The test of a
-- group is given, and may itself not return.
unfoldable pub count_approvals :
    (List Text → Option Bool) → CodeOwners → List Text → List Text → ℕ → Option (Option ℕ)
unfolding contains lookup has_prefix
count_approvals approved c approvers [] n = some (some n)
count_approvals approved c approvers (name ∷ rest) n =
    let yes' = count_approvals approved c approvers rest (n + 1) in
    let no' = count_approvals approved c approvers rest n in
    elim (is_group name) [
      | false ↦ if contains approvers name then yes' else no'
      | true ↦ elim (lookup name c.groups) [
        | none ↦ some none
        | some members ↦ elim (approved members) [ none ↦ none | some b ↦ if b then yes' else no' ]
      ]
    ]

-- The test behind that loop.
abbrev pub enough_approvals : List Text → Bool → Option (Option ℕ) → Option Bool
enough_approvals owners need_all none = none
enough_approvals owners need_all (some none) = some false
enough_approvals owners need_all (some (some n)) =
    some ((need_all && nat_eq n (length owners)) || (not need_all && ltb 0 n))

-- `allApproved`, with fuel for the recursion over groups.
unfoldable pub all_approved : ℕ → CodeOwners → List Text → List Text → Bool → Option Bool
unfolding lookup count_approvals
all_approved zero c approvers owners need_all = none
all_approved (suc fuel) c approvers owners need_all =
    let by_group : List Text → Option Bool =
      λ members. all_approved fuel c approvers members false in
    let own = enough_approvals owners need_all (count_approvals by_group c approvers owners 0) in
    let special = if need_all then lookup fallback_owners c.groups else none in
    elim special [
      | none ↦ own
      | some owners' ↦ elim (by_group owners') [
        | none ↦ none
        | some b ↦ if b then some true else own
      ]
    ]
