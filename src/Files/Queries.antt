-- ===== src/Files/Queries.antt =====
-- `CountOwnedFiles`, `GotAllRequiredApprovals` and `OwnersPerPath`. Fuel is for the groups, and none
-- stands for a call that has not returned.
use revchat.Base.{
  ℕ, ◌+◌, Bool, true, false, ◌||◌, List, [], ◌∷◌, Option, none, some, if◌then◌else◌, is_empty,
  contains,
}
use revchat.Base.Dict.{has_key, put}
use revchat.Base.Text.{Text, codes, text_eq}
use revchat.Cache.Store.{Cache}
use revchat.Files.Approvals.{Glob, get_owners, all_approved}
use revchat.Files.Groups.{parse_code_owners_file}
use revchat.Files.Parse.{CodeOwners}
use revchat.Files.Source.{Branch, Call, get_bitbucket_source_file}

-- Whether one of the names is in a list: the loops of `CountOwnedFiles` over the names.
unfoldable pub any_in : List Text → List Text → Bool
unfolding contains
any_in [] owners = false
any_in (name ∷ rest) owners = if contains owners name then true else any_in rest owners

unfoldable pub any_known : List Text → List (Text × Bool) → Bool
unfolding has_key
any_known [] users = false
any_known (name ∷ rest) users = if has_key name users then true else any_known rest users

module _ (glob : Glob) where
  -- The loop of `CountOwnedFiles` over the paths.
  unfoldable pub count_owned : CodeOwners → List Text → List Text → ℕ → ℕ
  unfolding get_owners any_in
  count_owned c names [] count = count
  count_owned c names (p ∷ rest) count =
      let counted = count_owned c names rest (count + 1) in
      let same = count_owned c names rest count in
      elim (get_owners glob c p) [
        | none ↦ 0
        | some owners ↦ if any_in names owners then counted else same
      ]

  -- `CountOwnedFiles` after the file is parsed.
  abbrev pub owned_of : List Text → List Text → Option CodeOwners → ℕ
  owned_of names paths none = 0
  owned_of names paths (some c) = if any_known names c.users then count_owned c names paths 0 else 0

  unfoldable pub count_owned_files :
      ℕ → Branch → List Text → List Text → Call → Cache Text → Option ℕ × Cache Text
  unfolding count_owned any_known parse_code_owners_file get_bitbucket_source_file
  count_owned_files fuel at names paths call c =
      let file = get_bitbucket_source_file at (codes "CODEOWNERS") call c in
      if is_empty names || is_empty paths then (some 0, c) else (
        elim (parse_code_owners_file fuel file.0 true) [
          | none ↦ none
          | some parsed ↦ some (owned_of names paths parsed)
        ],
        file.1,
      )

  -- The loop of `GotAllRequiredApprovals`
  unfoldable pub all_paths_approved : ℕ → CodeOwners → List Text → List Text → Option Bool
  unfolding get_owners all_approved
  all_paths_approved fuel c approvers [] = some true
  all_paths_approved fuel c approvers (p ∷ rest) =
      let more = all_paths_approved fuel c approvers rest in
      elim (get_owners glob c p) [
        | none ↦ some false
        | some owners ↦ elim (all_approved fuel c approvers owners true) [
          | none ↦ none
          | some b ↦ if b then more else some false
        ]
      ]

  abbrev pub approved_by : ℕ → List Text → List Text → Option (Option CodeOwners) → Option Bool
  approved_by fuel paths approvers none = none
  approved_by fuel paths approvers (some none) = some false
  approved_by fuel paths approvers (some (some c)) = all_paths_approved fuel c approvers paths

  -- `GotAllRequiredApprovals`
  unfoldable pub got_all_required_approvals :
      ℕ → Branch → List Text → List Text → Call → Cache Text → Option Bool × Cache Text
  unfolding all_paths_approved parse_code_owners_file get_bitbucket_source_file
  got_all_required_approvals fuel at paths approvers call c =
      let file = get_bitbucket_source_file at (codes "CODEOWNERS") call c in
      if is_empty paths
      then (some false, c)
      else (approved_by fuel paths approvers (parse_code_owners_file fuel file.0 true), file.1)

  -- The loop of `OwnersPerPath`: none for a bad pattern.
  unfoldable pub owners_of :
      CodeOwners → List Text → List (Text × List Text) → Option (List (Text × List Text))
  unfolding get_owners put
  owners_of c [] found = some found
  owners_of c (p ∷ rest) found = elim (get_owners glob c p) [
    | none ↦ none
    | some owners ↦ owners_of c rest (put p owners found)
  ]

  -- What `OwnersPerPath` returns: the owners and the groups, each none for Go's nil.
  abbrev pub PathOwners : Type 0
  PathOwners = Option (List (Text × List Text)) × Option (List (Text × List Text))

  abbrev pub path_owners : List Text → Bool → Option CodeOwners → PathOwners
  path_owners paths flatten none = (none, none)
  path_owners paths flatten (some c) = elim (owners_of c paths []) [
    | none ↦ (none, none)
    | some owners ↦ (some owners, if flatten then none else some c.groups)
  ]

  -- `OwnersPerPath`
  unfoldable pub owners_per_path :
      ℕ → Branch → List Text → Bool → Call → Cache Text → Option PathOwners × Cache Text
  unfolding owners_of parse_code_owners_file get_bitbucket_source_file
  owners_per_path fuel at paths flatten call c =
      let file = get_bitbucket_source_file at (codes "CODEOWNERS") call c in
      (
        elim (parse_code_owners_file fuel file.0 flatten) [
          | none ↦ none
          | some parsed ↦ some (path_owners paths flatten parsed)
        ],
        file.1,
      )
