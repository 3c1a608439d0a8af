-- ===== src/Files/Expansion.antt =====
-- The expansion of names and of paths.
use revchat.Base.{
  ℕ, zero, suc, true, false, List, [], ◌∷◌, none, some, contains, ◌≡◌, sym, subst, ◌∙◌, arith,
  Bool-cases, Option-cases, inl, inr,
}
use revchat.Base.Dict.{lookup, put}
use revchat.Base.Sorting.{sort_compact, contains-sort_compact}
use revchat.Base.Text.{Text, text_eq}
use revchat.Files.Parse.{CodeOwners}
use revchat.Files.Groups.{is_group, Members, expand_members, memoized, expand_member}
use revchat.Files.Owner.{
  Groups, Owner, self, member, AnyOwner, Exact, same_refl, same_trans, same_sym, memo_same,
  some-inj, self-eq,
}
use revchat.Files.Expand.{Exact-same, MemberOk, MembersOk, AllOf, expand_members-Ok}

pub sorted_sound :
    (g : Groups) (members l : List Text) (u : Text)
    → AllOf g members [] l
    → contains (sort_compact l) u ≡ true
    → AnyOwner g u members
unfolding contains
sorted_sound g members l u a h = elim (a.sound u (sym (contains-sort_compact l u) ∙ h)) [
  | inl e ↦ absurd (cc e)
  | inr any ↦ any
]

pub sorted_complete :
    (g : Groups) (members l : List Text) (u : Text)
    → AllOf g members [] l
    → AnyOwner g u members
    → contains (sort_compact l) u ≡ true
sorted_complete g members l u a any = contains-sort_compact l u ∙ a.complete u any

-- Who belongs to a group belongs to one of its members.
group-AnyOwner :
    (g : Groups) (name : Text) (members : List Text) (u : Text)
    → is_group name ≡ true
    → lookup name g ≡ some members
    → Owner g u name
    → AnyOwner g u members
group-AnyOwner g name members u p l (self q e) = cc
group-AnyOwner g name members u p l (member ms m q k c o) =
    (m, subst (λ x. contains x m ≡ true) (some-inj ms members (sym k ∙ l)) c, o)

group-Exact :
    (g : Groups) (name : Text) (members l : List Text)
    → is_group name ≡ true
    → lookup name g ≡ some members
    → AllOf g members [] l
    → Exact g (sort_compact l) name
group-Exact g name members l p k a = record {
  sound = λ u c. let (m, d, o) = sorted_sound g members l u a c in member members m p k d o;
  complete = λ u o. sorted_complete g members l u a (group-AnyOwner g name members u p k o);
}

memoized-Ok :
    (g : Groups) (name : Text) (members : List Text) (o : Members)
    → is_group name ≡ true
    → lookup name g ≡ some members
    → MembersOk g members [] o
    → MemberOk g name (memoized name o)
unfolding memoized
memoized-Ok g name members none p k h = tt
memoized-Ok g name members (some (none, c)) p k h = (h, λ e. cc)
memoized-Ok g name members (some (some l, c)) p k h =
    let exact = group-Exact g name members l p k h.1 in
    (
      same_trans g c.groups (put name (sort_compact l) c.groups) h.0 (
          memo_same c.groups name (sort_compact l)
            (Exact-same c.groups g (sort_compact l) name (same_sym g c.groups h.0) exact) p),
      λ e. exact,
    )

plain-Exact : (g : Groups) (name : Text) → is_group name ≡ false → Exact g (name ∷ []) name
unfolding contains
plain-Exact g name p = record {
  sound = λ u c. self p ((text_eq.equals_iff name u).0 (ground arith));
  complete = λ u o. ground (arith, (text_eq.equals_iff name u).1 (self-eq g u name o p));
}

pub expand_member-Ok :
    (fuel : ℕ) (name : Text) (c : CodeOwners) → MemberOk c.groups name (expand_member fuel name c)
unfolding expand_member
expand_member-Ok zero name c = tt
expand_member-Ok (suc fuel) name c = elim (Bool-cases (is_group name)) [
  | inr n ↦ rw (n, expand_member, MemberOk) (same_refl c.groups, λ e. plain-Exact c.groups name n)
  | inl y ↦ elim (Option-cases (lookup name c.groups)) [
    | inl missing ↦ rw (y, missing, expand_member, MemberOk) (same_refl c.groups, λ e. cc)
    | inr (members, k) ↦
        rw (y, k, expand_member)
          (memoized-Ok c.groups name members (expand_members (expand_member fuel) members [] c) y k
            (expand_members-Ok (expand_member fuel) (expand_member-Ok fuel) members [] c))
  ]
]
