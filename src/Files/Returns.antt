-- ===== src/Files/Returns.antt =====
-- Which groups can be expanded at all.
use revchat.Base.{
  ℕ, zero, suc, ◌+◌, ◌<◌, true, false, List, [], ◌∷◌, ◌++◌, Option, none, some, ◌==◌, nat_eq,
  contains, contains-append, beq_refl, ◌≡◌, refl, sym, subst, ◌∙◌, arith, Bool-cases, Option-cases,
  inl, inr,
}
use revchat.Base.Dict.{lookup, put, lookup-put}
use revchat.Base.Sorting.{sort_compact, contains-sort_compact}
use revchat.Base.Text.{Text, text_eq}
use revchat.Files.Parse.{CodeOwners}
use revchat.Files.Groups.{
  is_group, Expansion, Members, Paths, next_member, expand_members, memoized, expand_member,
  next_path, expand_paths, with_paths, expand_groups,
}
use revchat.Files.Owner.{Groups, some-inj}

module _ (rank : Text → ℕ) where
  -- Each group has a number above those of the groups among its members.
  abbrev pub IsRanked : Groups → Type 0
  IsRanked g =
      (name : Text) (members : List Text) (m : Text)
      → lookup name g ≡ some members
      → contains members m ≡ true
      → is_group m ≡ true
      → rank m < rank name

  abbrev IsPlain : List Text → Type 0
  IsPlain l = (u : Text) → contains l u ≡ true → is_group u ≡ false

  -- The call returns, with users only and groups that are still ranked.
  abbrev MemberReturns : Option Expansion → Type 0
  MemberReturns none = ⊥
  MemberReturns (some ((users, size), c)) = IsPlain users × IsRanked c.groups

  abbrev MembersReturn : Members → Type 0
  MembersReturn none = ⊥
  MembersReturn (some (none, c)) = IsRanked c.groups
  MembersReturn (some (some l, c)) = IsPlain l × IsRanked c.groups

  append-IsPlain : (l k : List Text) → IsPlain l → IsPlain k → IsPlain (l ++ k)
  append-IsPlain l k p q u h = elim (Bool-cases (contains l u)) [
    | inl y ↦ p u y
    | inr n ↦ q u (ground (arith, contains-append l k u))
  ]

  next_member-returns :
      (k : List Text → CodeOwners → Members) (before : List Text) (o : Option Expansion)
      → IsPlain before
      → MemberReturns o
      → ((l : List Text) (c : CodeOwners) → IsPlain l → IsRanked c.groups → MembersReturn (k l c))
      → MembersReturn (next_member k before o)
  unfolding next_member
  next_member-returns k before none p h next = h
  next_member-returns k before (some ((users, size), c)) p h next =
      elim (Bool-cases (nat_eq size 0)) [
        | inl y ↦ rw (y, MembersReturn) h.1
        | inr n ↦
            rw (n, MembersReturn) (next (before ++ users) c (append-IsPlain before users p h.0) h.1)
      ]

  expand_members-returns :
      (expand : Text → CodeOwners → Option Expansion) (members before : List Text) (c : CodeOwners)
      → ((m : Text) (d : CodeOwners)
          → contains members m ≡ true
          → IsRanked d.groups
          → MemberReturns (expand m d))
      → IsPlain before
      → IsRanked c.groups
      → MembersReturn (expand_members expand members before c)
  unfolding expand_members contains
  expand_members-returns expand [] before c ok p r = (p, r)
  expand_members-returns expand (m ∷ rest) before c ok p r =
      next_member-returns (expand_members expand rest) before (expand m c) p
        (ok m c (ground (arith, beq_refl m)) r)
        (λ l d q s. expand_members-returns expand rest l d (λ n e h. ok n e (ground arith)) q s)

  put-IsRanked :
      (g : Groups) (name : Text) (users : List Text)
      → IsPlain users
      → IsRanked g
      → IsRanked (put name users g)
  put-IsRanked g name users p r n members m k c q = elim (Bool-cases (name == n)) [
    | inl y ↦
        let same = some-inj users members (sym (lookup-put name n users g ∙ (rw y refl)) ∙ k) in
        let plain = p m (subst (λ x. contains x m ≡ true) (sym same) c) in cc
    | inr other ↦ r n members m (sym (lookup-put name n users g ∙ (rw other refl)) ∙ k) c q
  ]

  memoized-returns : (name : Text) (o : Members) → MembersReturn o → MemberReturns (memoized name o)
  unfolding memoized contains
  memoized-returns name none h = h
  memoized-returns name (some (none, c)) h = (λ u e. cc, h)
  memoized-returns name (some (some l, c)) h =
      let p : IsPlain (sort_compact l) = λ u e. h.0 u (sym (contains-sort_compact l u) ∙ e) in
      (p, put-IsRanked c.groups name (sort_compact l) p h.1)

  -- Enough fuel for a name.
  abbrev IsEnough : ℕ → Text → Type 0
  IsEnough fuel name = (0 < fuel) × (is_group name ≡ true → rank name + 1 < fuel)

  expand_member-returns :
      (fuel : ℕ) (name : Text) (c : CodeOwners)
      → IsEnough fuel name
      → IsRanked c.groups
      → MemberReturns (expand_member fuel name c)
  unfolding expand_member contains
  expand_member-returns zero name c h r = omega (arith, h.0)
  expand_member-returns (suc fuel) name c h r = elim (Bool-cases (is_group name)) [
    | inr n ↦
        rw (n, expand_member, MemberReturns)
          (
            λ u e. subst (λ x. is_group x ≡ false) ((text_eq.equals_iff name u).0 (ground arith)) n,
            r,
          )
    | inl y ↦ elim (Option-cases (lookup name c.groups)) [
      | inl missing ↦ rw (y, missing, expand_member, MemberReturns) (λ u e. cc, r)
      | inr (members, k) ↦
          rw (y, k, expand_member)
            (memoized-returns name (expand_members (expand_member fuel) members [] c) (
              expand_members-returns (expand_member fuel) members [] c
                (λ m d held s.
                  expand_member-returns fuel m d
                    (omega (arith, h.1 y), λ q. omega (arith, h.1 y, r name members m k held q)) s)
                (λ u e. cc) r))
    ]
  ]

  abbrev PathsReturn : Paths → Type 0
  PathsReturn none = ⊥
  PathsReturn (some r) = Unit

  next_path-returns :
      (k : List Text → CodeOwners → Paths) (o : Members)
      → MembersReturn o
      → ((l : List Text) (c : CodeOwners) → IsRanked c.groups → PathsReturn (k l c))
      → PathsReturn (next_path k o)
  unfolding next_path
  next_path-returns k none h next = h
  next_path-returns k (some (none, c)) h next = tt
  next_path-returns k (some (some l, c)) h next = next (sort_compact l) c h.1

  expand_paths-returns :
      (fuel : ℕ) (entries before : List (Text × List Text)) (c : CodeOwners)
      → ((m : Text) → IsEnough fuel m)
      → IsRanked c.groups
      → PathsReturn (expand_paths fuel entries before c)
  unfolding expand_paths contains
  expand_paths-returns fuel [] before c h r = tt
  expand_paths-returns fuel ((q, members) ∷ rest) before c h r =
      next_path-returns _ (expand_members (expand_member fuel) members [] c)
        (expand_members-returns (expand_member fuel) members [] c
          (λ m d held s. expand_member-returns fuel m d (h m) s) (λ u e. cc) r)
        (λ users d s. expand_paths-returns fuel rest (put q users before) d h s)

  groups_of : (o : Paths) → PathsReturn o → (c' : CodeOwners) × (with_paths o ≡ some c')
  groups_of none h = absurd h
  groups_of (some (none, c)) h = (c, refl)
  groups_of (some (some paths, c)) h = (record c { paths = paths }, refl)

-- Where each group has a number above those of the groups among its members, and the depth of the
-- recursion is bounded above all these numbers, `expandGroups` returns.
pub expand_groups-returns :
    (rank : Text → ℕ) (fuel : ℕ) (c : CodeOwners)
    → ((name : Text) → rank name + 1 < fuel)
    → IsRanked rank c.groups
    → (c' : CodeOwners) × (expand_groups fuel c ≡ some c')
unfolding expand_groups
expand_groups-returns rank fuel c h r =
    groups_of rank (expand_paths fuel c.paths [] c)
      (expand_paths-returns rank fuel c.paths [] c (λ m. (omega (arith, h m), λ q. h m)) r)

-- If every group of some names has one of these names as its first member, then no bound on the
-- depth of the recursion lets `expandMember` return for them.
pub expand_member-endless :
    (IsEndless : Text → Type 0) (c : CodeOwners)
    → ((name : Text)
        → IsEndless name
        → (is_group name ≡ true)
          × ((m : Text) × (rest : List Text) × (lookup name c.groups ≡ some (m ∷ rest))
              × IsEndless m))
    → (fuel : ℕ) (name : Text) → IsEndless name
    → expand_member fuel name c ≡ none
unfolding expand_member expand_members next_member memoized
expand_member-endless P c h zero name p = refl
expand_member-endless P c h (suc fuel) name p =
    let (y, more) = h name p in
    let (m, rest, k, q) = more in
    rw (y, k, expand_member) (rw (expand_member-endless P c h fuel m q) refl)
