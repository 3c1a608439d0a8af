-- ===== src/Files/Owner.antt =====
-- Who belongs to a group, as a relation, and what memoization leaves of it.
use revchat.Base.{
  true, false, List, some, ◌==◌, contains, ◌≡◌, refl, sym, subst, ◌∙◌, Bool-cases, inl, inr,
}
use revchat.Base.Dict.{lookup, put, lookup-put}
use revchat.Base.Text.{Text, text_eq}
use revchat.Files.Groups.{is_group}

abbrev pub Groups : Type 0
Groups = List (Text × List Text)

-- A user is the owner that they are, and belongs to each group with a member that they belong to.
pub data Owner (g : Groups) (user : Text) : Text → Type 0 where
  self : {name : Text} → is_group name ≡ false → name ≡ user → Owner g user name
  member :
      {name : Text} (members : List Text) (m : Text)
      → is_group name ≡ true
      → lookup name g ≡ some members
      → contains members m ≡ true
      → Owner g user m
      → Owner g user name

-- Someone who belongs to one of the members.
abbrev pub AnyOwner : Groups → Text → List Text → Type 0
AnyOwner g user members = (m : Text) × (contains members m ≡ true) × Owner g user m

-- The users that a name was expanded to are those that belong to it.
pub record Exact (g : Groups) (users : List Text) (name : Text) : Type 0 where
  pub sound : (user : Text) → contains users user ≡ true → Owner g user name
  pub complete : (user : Text) → Owner g user name → contains users user ≡ true

pub record SameOwners (g h : Groups) : Type 0 where
  pub forth : (user name : Text) → Owner g user name → Owner h user name
  pub back : (user name : Text) → Owner h user name → Owner g user name

pub same_refl : (g : Groups) → SameOwners g g
same_refl g = record { forth = λ u n o. o; back = λ u n o. o }

pub same_trans : (g h k : Groups) → SameOwners g h → SameOwners h k → SameOwners g k
same_trans g h k p q = record {
  forth = λ u n o. q.forth u n (p.forth u n o);
  back = λ u n o. p.back u n (q.back u n o);
}

-- A member of a list of owners is no group.
pub Owner-plain : (g : Groups) (user name : Text) → Owner g user name → is_group user ≡ false
Owner-plain g user name (self p e) = subst (λ x. is_group x ≡ false) e p
Owner-plain g user name (member ms m p l c o) = Owner-plain g user m o

pub self-eq :
    (g : Groups) (user name : Text) → Owner g user name → is_group name ≡ false → name ≡ user
self-eq g user name (self p e) h = e
self-eq g user name (member ms m p l c o) h = cc

pub some-inj : (a b : List Text) → some a ≡ some b → a ≡ b
some-inj a b e = cc

pub same_sym : (g h : Groups) → SameOwners g h → SameOwners h g
same_sym g h s = record { forth = s.back; back = s.forth }

module _ (g : Groups) (name : Text) (users : List Text) (exact : Exact g users name) where
  memo_back : (user n : Text) → Owner (put name users g) user n → Owner g user n
  memo_back user n (self p e) = self p e
  memo_back user n (member ms m p l c o) = elim (Bool-cases (name == n)) [
    | inl y ↦
        let same : name ≡ n = (text_eq.equals_iff name n).0 y in
        let held = sym (lookup-put name n users g ∙ (rw y refl)) ∙ l in
        let here : contains users m ≡ true =
          subst (λ x. contains x m ≡ true) (sym (some-inj users ms held)) c in
        let below : Owner g user m = memo_back user m o in
        let plain = Owner-plain g m name (exact.sound m here) in
        subst (λ x. Owner g user x) same
          (subst (λ x. Owner g x name) (self-eq g user m below plain) (exact.sound m here))
    | inr other ↦
        member ms m p (sym (lookup-put name n users g ∙ (rw other refl)) ∙ l) c (memo_back user m o)
  ]

  memo_forth :
      is_group name ≡ true → (user n : Text) → Owner g user n → Owner (put name users g) user n
  memo_forth grouped user n (self p e) = self p e
  memo_forth grouped user n (member ms m p l c o) = elim (Bool-cases (name == n)) [
    | inl y ↦
        let same : name ≡ n = (text_eq.equals_iff name n).0 y in
        member users user p (lookup-put name n users g ∙ (rw y refl))
          (exact.complete user (subst (λ x. Owner g user x) (sym same) (member ms m p l c o)))
          (self (Owner-plain g user m o) refl)
    | inr other ↦
        member ms m p (lookup-put name n users g ∙ (rw other l)) c (memo_forth grouped user m o)
  ]

  -- Memoization of a group changes nothing about who belongs to what.
  pub memo_same : is_group name ≡ true → SameOwners g (put name users g)
  memo_same grouped = record { forth = memo_forth grouped; back = memo_back }
