-- ===== src/Files/Tests.antt =====
-- Cases of code_owners_test.go, and the theorems of this package at concrete files.
use revchat.Base.{
  ℕ, ◌+◌, ◌<◌, true, false, ◌||◌, List, [], ◌∷◌, ◌++◌, none, some, if◌then◌else◌, ◌≡◌, refl, subst,
  arith, Bool-cases, inl, inr, ◌⊎◌, contains, ◌==◌, All,
}
use revchat.Base.Dict.{lookup, has_key}
use revchat.Base.Text.{Text, codes, text_eq, text_beq, text_beq_iff, has_prefix}
use revchat.Cache.Store.{get}
use revchat.Files.Approvals.{Glob, get_owners, ignored_by}
use revchat.Files.Groups.{
  is_group, expand_member, expand_paths, expand_groups, parse_code_owners_file,
}
use revchat.Files.Kept
use revchat.Files.Lines.{lines}
use revchat.Files.Order
use revchat.Files.Order.{file_patterns}
use revchat.Files.Owner.{SameOwners, some-inj}
use revchat.Files.Parse.{
  parse_code_owners_line, normalize_pattern, CodeOwners, no_owners, values_of,
}
use revchat.Files.Paths
use revchat.Files.Queries.{count_owned_files, got_all_required_approvals}
use revchat.Files.Required
use revchat.Files.Returns
use revchat.Files.Source.{Branch, Call, file_cache, get_bitbucket_source_file}

abbrev newline : Text
newline = 10 ∷ []

abbrev nested_file : Text
nested_file =
    codes "@@@GroupA @\"User 1\" @@GroupB"
    ++ newline
    ++ codes "@@@GroupB @\"User 2\""
    ++ newline
    ++ codes "* @@GroupA"
    ++ newline

abbrev nested : CodeOwners
nested = record {
  path_list = codes "**/*" ∷ [];
  ignore_list = [];
  groups =
      (codes "@GroupA", codes "User 1" ∷ codes "User 2" ∷ [])
      ∷ (codes "@GroupB", codes "User 2" ∷ [])
      ∷ [];
  paths = (codes "**/*", codes "User 1" ∷ codes "User 2" ∷ []) ∷ [];
  users = (codes "User 1", true) ∷ (codes "User 2", true) ∷ [];
}

nested_groups : parse_code_owners_file 8 nested_file true ≡ some (some nested)
unfolding parse_code_owners_file text_beq
nested_groups = refl

-- The same file before its groups are expanded.
abbrev raw : CodeOwners
raw = record {
  path_list = codes "**/*" ∷ [];
  ignore_list = [];
  groups =
      (codes "@GroupA", codes "User 1" ∷ codes "@GroupB" ∷ [])
      ∷ (codes "@GroupB", codes "User 2" ∷ [])
      ∷ [];
  paths = (codes "**/*", codes "@GroupA" ∷ []) ∷ [];
  users = [];
}

raw_of_file : parse_code_owners_file 8 nested_file false ≡ some (some raw)
unfolding parse_code_owners_file text_beq
raw_of_file = refl

raw-expanded :
    expand_paths 8 raw.paths [] raw ≡ some (some nested.paths, record nested { paths = raw.paths })
unfolding expand_paths text_beq
raw-expanded = refl

expand_groups-Owners_example :
    (expand_groups 8 raw ≡ some nested)
    × SameOwners raw.groups nested.groups
    × ((p : Text) (l : List Text)
        → lookup p nested.paths ≡ some l
        → (members : List Text) × Paths.HasEntry p members raw.paths
          × Paths.Owners raw.groups members l)
    × ((p : Text) → has_key p nested.paths ≡ has_key p raw.paths)
expand_groups-Owners_example =
    Paths.expand_groups-Owners 8 raw (record nested { paths = raw.paths }) nested.paths raw-expanded

abbrev rank : Text → ℕ
rank name = if name == codes "@GroupA" then 2 else if name == codes "@GroupB" then 1 else 0

rank-bounded : (name : Text) → rank name + 1 < 8
rank-bounded name = ground arith

-- A fact of all members, for one of them.
All-contains : (P : Text → Type 0) (l : List Text) (m : Text) → All P l → contains l m ≡ true → P m
unfolding contains
All-contains P [] m h held = absurd (ground (arith, held))
All-contains P (x ∷ l) m (p, h) held = elim (Bool-cases (x == m)) [
  | inl same ↦ subst P ((text_beq_iff x m).0 same) p
  | inr other ↦ All-contains P l m h (rw (other, contains) at held)
]

raw-IsRanked : Returns.IsRanked rank raw.groups
unfolding lookup has_prefix text_beq
raw-IsRanked name members m found held grouped = elim (Bool-cases (codes "@GroupA" == name)) [
  | inl is_a ↦
      let same = (text_beq_iff (codes "@GroupA") name).0 is_a in
      let l : codes "User 1" ∷ codes "@GroupB" ∷ [] ≡ members =
        some-inj (codes "User 1" ∷ codes "@GroupB" ∷ []) members (rw (is_a, lookup) at found) in
      All-contains (λ x. rank x < rank name) members m
        (subst (λ k. All (λ x. rank x < rank name) k) l
          (subst (λ k. All (λ x. rank x < rank k) (codes "User 1" ∷ codes "@GroupB" ∷ [])) same
            (omega arith, (omega arith, tt))))
        held
  | inr not_a ↦ elim (Bool-cases (codes "@GroupB" == name)) [
    | inl is_b ↦
        let l : codes "User 2" ∷ [] ≡ members =
          some-inj (codes "User 2" ∷ []) members (rw (not_a, is_b, lookup) at found) in
        let plain =
          All-contains (λ x. is_group x ≡ false) members m
            (subst (λ k. All (λ x. is_group x ≡ false) k) l (refl, tt)) held in
        absurd (ground (arith, plain))
    | inr not_b ↦ absurd (ground (arith, rw (not_a, not_b, lookup) at found))
  ]
]

expand_groups-returns_example : (c : CodeOwners) × (expand_groups 8 raw ≡ some c)
expand_groups-returns_example = Returns.expand_groups-returns rank 8 raw rank-bounded raw-IsRanked

-- Two groups, each a member of the other.
abbrev cycle : CodeOwners
cycle = record no_owners {
  groups = (codes "@A", codes "@B" ∷ []) ∷ (codes "@B", codes "@A" ∷ []) ∷ [];
}

abbrev InCycle : Text → Type 0
InCycle name = (name ≡ codes "@A") ⊎ (name ≡ codes "@B")

InCycle-next :
    (name : Text)
    → InCycle name
    → (is_group name ≡ true)
      × ((m : Text) × (rest : List Text) × (lookup name cycle.groups ≡ some (m ∷ rest)) × InCycle m)
unfolding lookup has_prefix text_beq
InCycle-next name (inl a) = rw a (refl, (codes "@B", [], refl, inr refl))
InCycle-next name (inr b) = rw b (refl, (codes "@A", [], refl, inl refl))

expand_member-endless_example : expand_member 100 (codes "@A") cycle ≡ none
expand_member-endless_example =
    Returns.expand_member-endless InCycle cycle InCycle-next 100 (codes "@A") (inl refl)

-- A matcher that knows the pattern of all files.
abbrev all_files : Glob
all_files pattern' path = some (text_beq pattern' (codes "**/*"))

abbrev main_branch : Branch
main_branch = record {
  workspace = codes "w";
  repo = codes "r";
  branch = codes "main";
  commit = codes "c1";
}

abbrev download : Call
download = record { now = 5; later = 7; answer = some nested_file }

abbrev one_path : List Text
one_path = codes "a/b.go" ∷ []

abbrev both_users : List Text
both_users = codes "User 2" ∷ codes "User 1" ∷ []

one-does_not :
    (got_all_required_approvals all_files 8 main_branch one_path
      (codes "User 2" ∷ [])
      download
      file_cache).0
    ≡ some false
unfolding got_all_required_approvals text_beq file_cache
one-does_not = refl

one-counted :
    (count_owned_files all_files 8 main_branch both_users one_path download file_cache).0 ≡ some 1
unfolding count_owned_files text_beq file_cache
one-counted = refl

-- Two patterns, and a path that only the first one matches.
abbrev two_patterns : Text
two_patterns = codes "* @\"User 1\"" ++ newline ++ codes "/b.go @\"User 2\"" ++ newline

abbrev two_parsed : CodeOwners
two_parsed = record {
  path_list = codes "/b.go" ∷ codes "**/*" ∷ [];
  ignore_list = [];
  groups = [];
  paths = (codes "**/*", codes "User 1" ∷ []) ∷ (codes "/b.go", codes "User 2" ∷ []) ∷ [];
  users = (codes "User 1", true) ∷ (codes "User 2", true) ∷ [];
}

abbrev any_or_exact : Glob
any_or_exact p path = some (p == codes "**/*" || p == path)

two_patterns_parsed : parse_code_owners_file 8 two_patterns true ≡ some (some two_parsed)
unfolding parse_code_owners_file text_beq
two_patterns_parsed = refl

two_patterns_listed : file_patterns (lines two_patterns) ≡ codes "**/*" ∷ codes "/b.go" ∷ []
unfolding lines parse_code_owners_line normalize_pattern text_beq
two_patterns_listed = refl

get_owners-last_example :
    get_owners any_or_exact two_parsed (codes "a.go")
    ≡ some (values_of (codes "**/*") two_parsed.paths)
unfolding text_beq ignored_by has_prefix
get_owners-last_example =
    Order.get_owners-last any_or_exact 8 two_patterns true two_parsed [] (codes "/b.go" ∷ [])
      (codes "**/*") (codes "a.go") two_patterns_parsed two_patterns_listed refl (refl, tt) refl

fetched_once :
    get_bitbucket_source_file
      (record main_branch { commit = codes "c2" })
      (codes "CODEOWNERS")
      (record { now = 600000000007; later = 600000000009; answer = none })
      (get_bitbucket_source_file main_branch (codes "CODEOWNERS") download file_cache).1
    ≡ (
      nested_file,
      (get_bitbucket_source_file main_branch (codes "CODEOWNERS") download file_cache).1,
    )
unfolding file_cache get
fetched_once =
    Kept.get_bitbucket_source_file-kept main_branch (codes "CODEOWNERS") nested_file (codes "c2")
      download (record { now = 600000000007; later = 600000000009; answer = none }) file_cache refl
      refl refl (omega arith)
