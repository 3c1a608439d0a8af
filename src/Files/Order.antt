-- ===== src/Files/Order.antt =====
-- The order of the patterns of a CODEOWNERS file: the expansion of groups leaves it as it is, and the
-- last pattern that matches a path wins.
use mathlib.Core.Option.{some-injective}
use mathlib.Core.List.{append_assoc, append-nil}
use revchat.Base.{
  ℕ, zero, suc, Bool, true, false, ◌||◌, List, [], ◌∷◌, ◌++◌, Option, none, some, if◌then◌else◌,
  is_empty, nat_eq, All, ◌≡◌, refl, sym, ap, subst, ◌∙◌, arith, Bool-cases, Option-cases, inl, inr,
}
use revchat.Base.Dict.{lookup, put}
use revchat.Base.Sorting.{sort_compact}
use revchat.Base.Text.{Text, codes, text_eq, has_prefix}
use revchat.Files.Approvals.{Glob, ignored_by, owners_by, rooted, get_owners}
use revchat.Files.Groups.{
  is_group, Expansion, Members, Paths, next_member, expand_members, memoized, expand_member,
  next_path, expand_paths, with_paths, expand_groups, reversed, parse_code_owners_file,
}
use revchat.Files.Lines.{lines}
use revchat.Files.Parse.{
  CodeOwners, no_owners, Line, normalize_pattern, parse_code_owners_line, values_of, add_line,
  add_lines,
}

-- The patterns are the same in both, and so are the ignored ones.
abbrev SameLists : CodeOwners → CodeOwners → Type 0
SameLists c d = (d.path_list ≡ c.path_list) × (d.ignore_list ≡ c.ignore_list)

trans : (c d e : CodeOwners) → SameLists c d → SameLists d e → SameLists c e
trans c d e h k = (k.0 ∙ h.0, k.1 ∙ h.1)

-- What holds of the result of a part that returns.
abbrev Keeps : {A : Type 0} → CodeOwners → Option (A × CodeOwners) → Type 0
Keeps c none = Unit
Keeps c (some (a, d)) = SameLists c d

Keeps-trans :
    {A : Type 0} (c d : CodeOwners) (o : Option (A × CodeOwners))
    → SameLists c d
    → Keeps d o
    → Keeps c o
Keeps-trans c d none h k = tt
Keeps-trans c d (some (a, e)) h k = trans c d e h k

next_member-Keeps :
    (c : CodeOwners) (k : List Text → CodeOwners → Members) (before : List Text)
    (o : Option Expansion)
    → Keeps c o
    → ((l : List Text) (d : CodeOwners) → Keeps d (k l d))
    → Keeps c (next_member k before o)
unfolding next_member
next_member-Keeps c k before none h next = tt
next_member-Keeps c k before (some ((users, size), d)) h next = elim (Bool-cases (nat_eq size 0)) [
  | inl y ↦ rw y h
  | inr n ↦ rw n (Keeps-trans c d (k (before ++ users) d) h (next (before ++ users) d))
]

expand_members-Keeps :
    (expand : Text → CodeOwners → Option Expansion)
    → ((m : Text) (c : CodeOwners) → Keeps c (expand m c))
    → (members before : List Text) (c : CodeOwners)
    → Keeps c (expand_members expand members before c)
unfolding expand_members
expand_members-Keeps expand ok [] before c = (refl, refl)
expand_members-Keeps expand ok (m ∷ rest) before c =
    next_member-Keeps c (expand_members expand rest) before (expand m c) (ok m c)
      (λ l d. expand_members-Keeps expand ok rest l d)

memoized-Keeps :
    (c : CodeOwners) (name : Text) (o : Members) → Keeps c o → Keeps c (memoized name o)
unfolding memoized
memoized-Keeps c name none h = tt
memoized-Keeps c name (some (none, d)) h = h
memoized-Keeps c name (some (some l, d)) h = h

expand_member-Keeps :
    (fuel : ℕ) (name : Text) (c : CodeOwners) → Keeps c (expand_member fuel name c)
unfolding expand_member
expand_member-Keeps zero name c = tt
expand_member-Keeps (suc fuel) name c = elim (Bool-cases (is_group name)) [
  | inr n ↦ rw (n, expand_member) (refl, refl)
  | inl y ↦ elim (Option-cases (lookup name c.groups)) [
    | inl gone ↦ rw (y, gone, expand_member) (refl, refl)
    | inr (members, k) ↦
        rw (y, k, expand_member)
          (memoized-Keeps c name (expand_members (expand_member fuel) members [] c)
            (expand_members-Keeps (expand_member fuel) (expand_member-Keeps fuel) members [] c))
  ]
]

next_path-Keeps :
    (c : CodeOwners) (k : List Text → CodeOwners → Paths) (o : Members)
    → Keeps c o
    → ((l : List Text) (d : CodeOwners) → Keeps d (k l d))
    → Keeps c (next_path k o)
unfolding next_path
next_path-Keeps c k none h next = tt
next_path-Keeps c k (some (none, d)) h next = h
next_path-Keeps c k (some (some l, d)) h next =
    Keeps-trans c d (k (sort_compact l) d) h (next (sort_compact l) d)

expand_paths-Keeps :
    (fuel : ℕ) (entries before : List (Text × List Text)) (c : CodeOwners)
    → Keeps c (expand_paths fuel entries before c)
unfolding expand_paths
expand_paths-Keeps fuel [] before c = (refl, refl)
expand_paths-Keeps fuel ((q, members) ∷ rest) before c =
    next_path-Keeps c _ (expand_members (expand_member fuel) members [] c)
      (expand_members-Keeps (expand_member fuel) (expand_member-Keeps fuel) members [] c)
      (λ users d. expand_paths-Keeps fuel rest (put q users before) d)

with_paths-SameLists :
    (c d : CodeOwners) (o : Paths) → Keeps c o → with_paths o ≡ some d → SameLists c d
with_paths-SameLists c d none h e = absurd (ground (arith, e))
with_paths-SameLists c d (some (none, x)) h e = subst (SameLists c) (some-injective x d e) h
with_paths-SameLists c d (some (some paths, x)) h e =
    subst (SameLists c) (some-injective (record x { paths = paths }) d e) h

expand_groups-SameLists :
    (fuel : ℕ) (c d : CodeOwners) → expand_groups fuel c ≡ some d → SameLists c d
unfolding expand_groups
expand_groups-SameLists fuel c d e =
    with_paths-SameLists c d (expand_paths fuel c.paths [] c) (expand_paths-Keeps fuel c.paths [] c)
      e

reversed-append : (xs ys : List Text) → reversed (xs ++ ys) ≡ reversed ys ++ reversed xs
unfolding reversed
reversed-append [] ys = sym (append-nil (reversed ys))
reversed-append (x ∷ xs) ys =
    ap (λ l. l ++ x ∷ []) (reversed-append xs ys)
    ∙ append_assoc (reversed ys) (reversed xs) (x ∷ [])

-- The patterns of the lines of a file that are not ignored ones, from the first line to the last.
abbrev file_pattern : Line → List Text
file_pattern line =
    if is_empty line.path_pattern || has_prefix line.path_pattern (codes "!")
    then []
    else normalize_pattern line.path_pattern ∷ []

abbrev pub file_patterns : List Text → List Text
file_patterns [] = []
file_patterns (line ∷ rest) = file_pattern (parse_code_owners_line line) ++ file_patterns rest

path_list-add_line :
    (line : Line) (c : CodeOwners) → (add_line line c).path_list ≡ c.path_list ++ file_pattern line
unfolding add_line
path_list-add_line line c = ground (arith, append-nil c.path_list)

path_list-add_lines :
    (l : List Text) (c : CodeOwners) → (add_lines l c).path_list ≡ c.path_list ++ file_patterns l
unfolding add_lines
path_list-add_lines [] c = sym (append-nil c.path_list)
path_list-add_lines (line ∷ rest) c =
    path_list-add_lines rest (add_line (parse_code_owners_line line) c)
    ∙ ap (λ x. x ++ file_patterns rest) (path_list-add_line (parse_code_owners_line line) c)
    ∙ append_assoc c.path_list (file_pattern (parse_code_owners_line line)) (file_patterns rest)

flattened-path_list :
    (c d : CodeOwners) (o : Option CodeOwners) (flatten : Bool)
    → ((x : CodeOwners) → o ≡ some x → SameLists c x)
    → (if flatten then (elim o [ none ↦ none | some x ↦ some (some x) ]) else some (some c))
      ≡ some (some d)
    → d.path_list ≡ c.path_list
flattened-path_list c d none true h e = absurd (ground (arith, e))
flattened-path_list c d (some x) true h e =
    subst (λ y. y.path_list ≡ c.path_list) (some-injective x d (some-injective (some x) (some d) e))
      (h x refl).0
flattened-path_list c d o false h e =
    ap (λ y. y.path_list) (sym (some-injective c d (some-injective (some c) (some d) e)))

-- The patterns of a parsed file, the last one first.
parse_code_owners_file-path_list :
    (fuel : ℕ) (content : Text) (flatten : Bool) (c : CodeOwners)
    → parse_code_owners_file fuel content flatten ≡ some (some c)
    → c.path_list ≡ reversed (file_patterns (lines content))
unfolding parse_code_owners_file
parse_code_owners_file-path_list fuel content flatten c e =
    let parsed = add_lines (lines content) no_owners in
    let listed : CodeOwners = record parsed { path_list = reversed parsed.path_list } in
    elim (Bool-cases (is_empty content)) [
      | inl y ↦ absurd (ground (arith, rw (y, parse_code_owners_file) at e))
      | inr n ↦
          flattened-path_list listed c (expand_groups fuel listed) flatten
            (λ x. expand_groups-SameLists fuel listed x) (rw (n, parse_code_owners_file) at e)
          ∙ ap reversed (path_list-add_lines (lines content) no_owners)
    ]

module _ (glob : Glob) where
  owners_by-append :
      (c : CodeOwners) (qs more : List Text) (path : Text)
      → All (λ q. glob q path ≡ some false) qs
      → owners_by glob c (qs ++ more) path ≡ owners_by glob c more path
  unfolding owners_by
  owners_by-append c [] more path none_match = refl
  owners_by-append c (q ∷ qs) more path (here, rest) =
      rw (here, owners_by) (owners_by-append c qs more path rest)

  All-append :
      (path : Text) (qs more : List Text)
      → All (λ q. glob q path ≡ some false) qs
      → All (λ q. glob q path ≡ some false) more
      → All (λ q. glob q path ≡ some false) (qs ++ more)
  All-append path [] more h k = k
  All-append path (q ∷ qs) more (here, rest) k = (here, All-append path qs more rest k)

  All-reversed :
      (path : Text) (qs : List Text)
      → All (λ q. glob q path ≡ some false) qs
      → All (λ q. glob q path ≡ some false) (reversed qs)
  unfolding reversed
  All-reversed path [] h = tt
  All-reversed path (q ∷ qs) (here, rest) =
      All-append path (reversed qs) (q ∷ []) (All-reversed path qs rest) (here, tt)

  -- The last match wins: if a path matches a pattern of the CODEOWNERS file and none of the patterns
  -- on later lines, and is not ignored, then it has the owners of that pattern.
  pub get_owners-last :
      (fuel : ℕ) (content : Text) (flatten : Bool) (c : CodeOwners) (before after : List Text)
      (pattern' path : Text)
      → parse_code_owners_file fuel content flatten ≡ some (some c)
      → file_patterns (lines content) ≡ before ++ pattern' ∷ after
      → glob pattern' (rooted path) ≡ some true
      → All (λ q. glob q (rooted path) ≡ some false) after
      → ignored_by glob c.ignore_list (rooted path) ≡ false
      → get_owners glob c path ≡ some (values_of pattern' c.paths)
  unfolding get_owners owners_by reversed
  get_owners-last fuel content flatten c before after pattern' path parsed listed match later
        shown =
      let path' = rooted path in
      let order =
        parse_code_owners_file-path_list fuel content flatten c parsed
        ∙ ap reversed listed
        ∙ reversed-append before (pattern' ∷ after)
        ∙ append_assoc (reversed after) (pattern' ∷ []) (reversed before) in
      ap (λ l. owners_by glob c l path') order
      ∙ owners_by-append c (reversed after) (pattern' ∷ reversed before) path'
          (All-reversed path' after later)
      ∙ rw (match, shown, owners_by) refl
