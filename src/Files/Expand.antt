-- ===== src/Files/Expand.antt =====
-- What `expandMember` and `expandGroups` compute: everyone who belongs to a name, and no one else.
use revchat.Base.{
  true, false, List, [], ◌∷◌, ◌++◌, Option, none, some, ◌==◌, nat_eq, contains, contains-append,
  beq_refl, ◌≡◌, sym, subst, arith, Bool-cases, inl, inr, ◌⊎◌,
}
use revchat.Base.Text.{Text, text_eq}
use revchat.Files.Parse.{CodeOwners}
use revchat.Files.Groups.{Expansion, Members, next_member, expand_members}
use revchat.Files.Owner.{Groups, Owner, AnyOwner, Exact, SameOwners, same_refl, same_trans}

pub Exact-same :
    (g h : Groups) (l : List Text) (n : Text) → SameOwners g h → Exact h l n → Exact g l n
Exact-same g h l n s e = record {
  sound = λ u c. s.back u n (e.sound u c);
  complete = λ u o. e.complete u (s.forth u n o);
}

-- What is said of the expansion of a member, if it returns.
abbrev pub MemberOk : Groups → Text → Option Expansion → Type 0
MemberOk g name none = Unit
MemberOk g name (some ((users, size), c)) =
    SameOwners g c.groups × (nat_eq size 0 ≡ false → Exact g users name)

-- The users of a list of members, behind those that were there before.
pub record AllOf (g : Groups) (members before l : List Text) : Type 0 where
  pub sound : (u : Text) → contains l u ≡ true → (contains before u ≡ true) ⊎ AnyOwner g u members
  pub before_kept : (u : Text) → contains before u ≡ true → contains l u ≡ true
  pub complete : (u : Text) → AnyOwner g u members → contains l u ≡ true

abbrev pub MembersOk : Groups → List Text → List Text → Members → Type 0
MembersOk g members before none = Unit
MembersOk g members before (some (none, c)) = SameOwners g c.groups
MembersOk g members before (some (some l, c)) = SameOwners g c.groups × AllOf g members before l

pub AnyOwner-cons :
    (g : Groups) (u m : Text) (ms : List Text)
    → AnyOwner g u (m ∷ ms)
    → Owner g u m ⊎ AnyOwner g u ms
unfolding contains
AnyOwner-cons g u m ms (n, c, o) = elim (Bool-cases (m == n)) [
  | inl y ↦ inl (subst (λ x. Owner g u x) (sym ((text_eq.equals_iff m n).0 y)) o)
  | inr other ↦ inr (n, ground arith, o)
]

pub AnyOwner-nil : (g : Groups) (u : Text) → ¬ AnyOwner g u []
unfolding contains
AnyOwner-nil g u any = cc any.1

pub AnyOwner-head : (g : Groups) (u m : Text) (ms : List Text) → Owner g u m → AnyOwner g u (m ∷ ms)
unfolding contains
AnyOwner-head g u m ms o = (m, ground (arith, beq_refl m), o)

pub AnyOwner-tail :
    (g : Groups) (u m : Text) (ms : List Text) → AnyOwner g u ms → AnyOwner g u (m ∷ ms)
unfolding contains
AnyOwner-tail g u m ms (n, c, o) = (n, ground arith, o)

append_left : (l k : List Text) (u : Text) → contains l u ≡ true → contains (l ++ k) u ≡ true
append_left l k u h = ground (arith, contains-append l k u)

append_right : (l k : List Text) (u : Text) → contains k u ≡ true → contains (l ++ k) u ≡ true
append_right l k u h = ground (arith, contains-append l k u)

append_cases :
    (l k : List Text) (u : Text)
    → contains (l ++ k) u ≡ true
    → (contains l u ≡ true) ⊎ (contains k u ≡ true)
append_cases l k u h = elim (Bool-cases (contains l u)) [
  | inl y ↦ inl y
  | inr other ↦ inr (ground (arith, contains-append l k u))
]

-- One member more in front.
AllOf-cons :
    (g h : Groups) (m : Text) (rest before users l : List Text)
    → SameOwners g h
    → Exact g users m
    → AllOf h rest (before ++ users) l
    → AllOf g (m ∷ rest) before l
AllOf-cons g h m rest before users l s e a = record {
  sound = λ u c. elim (a.sound u c) [
    | inl early ↦ elim (append_cases before users u early) [
      | inl b ↦ inl b
      | inr k ↦ inr (AnyOwner-head g u m rest (e.sound u k))
    ]
    | inr (n, k, o) ↦ inr (AnyOwner-tail g u m rest (n, k, s.back u n o))
  ];
  before_kept = λ u c. a.before_kept u (append_left before users u c);
  complete = λ u any. elim (AnyOwner-cons g u m rest any) [
    | inl o ↦ a.before_kept u (append_right before users u (e.complete u o))
    | inr (n, k, o) ↦ a.complete u (n, k, s.forth u n o)
  ];
}

MembersOk-same :
    (g h : Groups) (m : Text) (rest before users : List Text) (o : Members)
    → SameOwners g h
    → Exact g users m
    → MembersOk h rest (before ++ users) o
    → MembersOk g (m ∷ rest) before o
MembersOk-same g h m rest before users none s e k = tt
MembersOk-same g h m rest before users (some (none, c)) s e k = same_trans g h c.groups s k
MembersOk-same g h m rest before users (some (some l, c)) s e k =
    (same_trans g h c.groups s k.0, AllOf-cons g h m rest before users l s e k.1)

next_member-Ok :
    (g : Groups) (m : Text) (rest before : List Text) (k : List Text → CodeOwners → Members)
    (o : Option Expansion)
    → MemberOk g m o
    → ((l : List Text) (c : CodeOwners) → MembersOk c.groups rest l (k l c))
    → MembersOk g (m ∷ rest) before (next_member k before o)
unfolding next_member
next_member-Ok g m rest before k none h next = tt
next_member-Ok g m rest before k (some ((users, size), c)) h next =
    elim (Bool-cases (nat_eq size 0)) [
      | inl y ↦ rw (y, MembersOk) h.0
      | inr n ↦
          rw (n, MembersOk)
            (MembersOk-same g c.groups m rest before users (k (before ++ users) c) h.0 (h.1 n)
              (next (before ++ users) c))
    ]

pub expand_members-Ok :
    (expand : Text → CodeOwners → Option Expansion)
    → ((m : Text) (c : CodeOwners) → MemberOk c.groups m (expand m c))
    → (members before : List Text) (c : CodeOwners)
    → MembersOk c.groups members before (expand_members expand members before c)
unfolding expand_members
expand_members-Ok expand ok [] before c = (
  same_refl c.groups,
  record {
    sound = λ u h. inl h;
    before_kept = λ u h. h;
    complete = λ u any. absurd (AnyOwner-nil c.groups u any);
  },
)
expand_members-Ok expand ok (m ∷ rest) before c =
    next_member-Ok c.groups m rest before (expand_members expand rest) (expand m c) (ok m c)
      (λ l d. expand_members-Ok expand ok rest l d)
