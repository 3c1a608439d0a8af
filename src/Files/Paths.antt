-- ===== src/Files/Paths.antt =====
-- The owners of the path patterns behind `expandGroups`.
use revchat.Base.{
  ℕ, true, ◌||◌, List, [], ◌∷◌, none, some, ◌==◌, contains, ◌≡◌, refl, sym, ap, subst, ◌∙◌, arith,
  Bool-cases, inl, inr, ◌⊎◌, ◌↔◌,
}
use revchat.Base.Dict.{lookup, put, has_key, lookup-put, has_key-put}
use revchat.Base.Sorting.{sort_compact}
use revchat.Base.Text.{Text, text_eq}
use revchat.Files.Parse.{CodeOwners}
use revchat.Files.Groups.{
  Members, Paths, next_path, expand_members, expand_member, expand_paths, with_paths, expand_groups,
}
use revchat.Files.Owner.{Groups, AnyOwner, SameOwners, same_refl, same_trans, some-inj}
use revchat.Files.Expand.{MembersOk, AllOf, expand_members-Ok}
use revchat.Files.Expansion.{expand_member-Ok, sorted_sound, sorted_complete}

-- The list has the pattern with these members.
abbrev pub HasEntry : Text → List Text → List (Text × List Text) → Type 0
HasEntry p members [] = ⊥
HasEntry p members ((q, l) ∷ rest) = ((q ≡ p) × (l ≡ members)) ⊎ HasEntry p members rest

-- Everyone who belongs to one of the members, and no one else.
abbrev pub Owners : Groups → List Text → List Text → Type 0
Owners g members l = (u : Text) → (contains l u ≡ true) ↔ AnyOwner g u members

-- The paths that were expanded so far, and those of some entries.
abbrev Expanded :
    Groups → List (Text × List Text) → List (Text × List Text) → List (Text × List Text) → Type 0
Expanded g entries before paths =
    ((p : Text) (l : List Text)
      → lookup p paths ≡ some l
      → (lookup p before ≡ some l)
        ⊎ ((members : List Text) × HasEntry p members entries × Owners g members l))
    × ((p : Text) → has_key p paths ≡ (has_key p before || has_key p entries))

abbrev PathsOk : Groups → List (Text × List Text) → List (Text × List Text) → Paths → Type 0
PathsOk g entries before none = Unit
PathsOk g entries before (some (none, c)) = SameOwners g c.groups
PathsOk g entries before (some (some paths, c)) =
    SameOwners g c.groups × Expanded g entries before paths

Owners-same :
    (g h : Groups) (members l : List Text)
    → SameOwners g h
    → Owners h members l
    → Owners g members l
Owners-same g h members l s o u = (
  λ c. let (m, k, w) = (o u).0 c in (m, k, s.back u m w),
  λ any. let (m, k, w) = any in (o u).1 (m, k, s.forth u m w),
)

Owners-sorted :
    (g : Groups) (members l : List Text) → AllOf g members [] l → Owners g members (sort_compact l)
Owners-sorted g members l a u = (sorted_sound g members l u a, sorted_complete g members l u a)

Expanded-cons :
    (g h : Groups) (q : Text) (members users : List Text)
    (rest before paths : List (Text × List Text))
    → SameOwners g h
    → Owners g members users
    → Expanded h rest (put q users before) paths
    → Expanded g ((q, members) ∷ rest) before paths
unfolding has_key
Expanded-cons g h q members users rest before paths s o e = (
  λ p l k. elim (e.0 p l k) [
    | inr (ms, m, w) ↦ inr (ms, inr m, Owners-same g h ms l s w)
    | inl early ↦ elim (Bool-cases (q == p)) [
      | inl y ↦
          let users-l : users ≡ l =
            some-inj users l (sym (lookup-put q p users before ∙ (rw y refl)) ∙ early) in
          inr (
            members,
            inl ((text_eq.equals_iff q p).0 y, refl),
            subst (λ x. Owners g members x) users-l o,
          )
      | inr other ↦ inl (sym (lookup-put q p users before ∙ (rw other refl)) ∙ early)
    ]
  ],
  λ p. e.1 p ∙ ground (arith, has_key-put q p users before),
)

PathsOk-cons :
    (g h : Groups) (q : Text) (members users : List Text) (rest before : List (Text × List Text))
    (o : Paths)
    → SameOwners g h
    → Owners g members users
    → PathsOk h rest (put q users before) o
    → PathsOk g ((q, members) ∷ rest) before o
PathsOk-cons g h q members users rest before none s o k = tt
PathsOk-cons g h q members users rest before (some (none, c)) s o k = same_trans g h c.groups s k
PathsOk-cons g h q members users rest before (some (some paths, c)) s o k =
    (same_trans g h c.groups s k.0, Expanded-cons g h q members users rest before paths s o k.1)

next_path-Ok :
    (g : Groups) (q : Text) (members : List Text) (rest before : List (Text × List Text))
    (k : List Text → CodeOwners → Paths) (o : Members)
    → MembersOk g members [] o
    → ((users : List Text) (c : CodeOwners)
        → PathsOk c.groups rest (put q users before) (k users c))
    → PathsOk g ((q, members) ∷ rest) before (next_path k o)
unfolding next_path
next_path-Ok g q members rest before k none h next = tt
next_path-Ok g q members rest before k (some (none, c)) h next = h
next_path-Ok g q members rest before k (some (some l, c)) h next =
    PathsOk-cons g c.groups q members (sort_compact l) rest before (k (sort_compact l) c) h.0
      (Owners-sorted g members l h.1) (next (sort_compact l) c)

expand_paths-Ok :
    (fuel : ℕ) (entries before : List (Text × List Text)) (c : CodeOwners)
    → PathsOk c.groups entries before (expand_paths fuel entries before c)
unfolding expand_paths has_key
expand_paths-Ok fuel [] before c = (same_refl c.groups, (λ p l k. inl k, λ p. ground arith))
expand_paths-Ok fuel ((q, members) ∷ rest) before c =
    next_path-Ok c.groups q members rest before _ (expand_members (expand_member fuel) members [] c)
      (expand_members-Ok (expand_member fuel) (expand_member-Ok fuel) members [] c)
      (λ users c'. expand_paths-Ok fuel rest (put q users before) c')

only_entries :
    (g : Groups) (entries paths : List (Text × List Text))
    → Expanded g entries [] paths
    → (p : Text) (l : List Text) → lookup p paths ≡ some l
    → (members : List Text) × HasEntry p members entries × Owners g members l
unfolding lookup
only_entries g entries paths e p l k = elim (e.0 p l k) [
  | inl early ↦ absurd (cc early)
  | inr found ↦ found
]

same_keys :
    (g : Groups) (entries paths : List (Text × List Text))
    → Expanded g entries [] paths
    → (p : Text) → has_key p paths ≡ has_key p entries
unfolding has_key
same_keys g entries paths e p = e.1 p

-- If every path is expanded, then `expandGroups` keeps the patterns of the paths, and gives each
-- exactly the users that belong to one of its members, be it directly or through groups in groups.
-- The memoized groups have the same users as before.
pub expand_groups-Owners :
    (fuel : ℕ) (c c' : CodeOwners) (paths : List (Text × List Text))
    → expand_paths fuel c.paths [] c ≡ some (some paths, c')
    → (expand_groups fuel c ≡ some (record c' { paths = paths }))
      × SameOwners c.groups c'.groups
      × ((p : Text) (l : List Text)
          → lookup p paths ≡ some l
          → (members : List Text) × HasEntry p members c.paths × Owners c.groups members l)
      × ((p : Text) → has_key p paths ≡ has_key p c.paths)
unfolding expand_groups
expand_groups-Owners fuel c c' paths e =
    let h : PathsOk c.groups c.paths [] (some (some paths, c')) =
      subst (PathsOk c.groups c.paths []) e (expand_paths-Ok fuel c.paths [] c) in
    (
      ap with_paths e,
      h.0,
      only_entries c.groups c.paths paths h.1,
      same_keys c.groups c.paths paths h.1,
    )
