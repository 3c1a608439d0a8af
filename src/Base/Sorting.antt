-- ===== src/Base/Sorting.antt =====
-- `slices.Sort` and `slices.Compact` on strings. Code points compare as their UTF-8 bytes do.
use mathlib.Core.Path.{◌≡◌, refl, ◌∙◌}
use mathlib.Core.Logic.{inl, inr}
use mathlib.Core.Bool.{Bool, true, false, ◌&&◌, ◌||◌}
use mathlib.Core.List.{List, [], ◌∷◌}
use native.Mathlib.Omega.{arith}
use revchat.Base.Tests.{◌==◌, ltb, nat_eq, if◌then◌else◌, Bool-cases}
use revchat.Base.Lists.{contains}
use revchat.Base.Text.{Text, text_beq, text_beq_iff, text_eq}

-- `a < b` on strings
unfoldable pub text_ltb : Text → Text → Bool
text_ltb _ [] = false
text_ltb [] (y ∷ ys) = true
text_ltb (x ∷ xs) (y ∷ ys) = ltb x y || (nat_eq x y && text_ltb xs ys)

unfoldable pub insert : Text → List Text → List Text
insert a [] = a ∷ []
insert a (x ∷ xs) = let rest = insert a xs in if text_ltb x a then x ∷ rest else a ∷ x ∷ xs

unfoldable pub sort : List Text → List Text
unfolding insert text_ltb
sort [] = []
sort (x ∷ xs) = insert x (sort xs)

unfoldable pub compact : List Text → List Text
compact [] = []
compact (x ∷ []) = x ∷ []
compact (x ∷ y ∷ l) = let rest = compact (y ∷ l) in if x == y then rest else x ∷ rest

-- Each text is greater than those before it: sorted, and none twice.
abbrev pub IsAscending : List Text → Type 0
IsAscending [] = Unit
IsAscending (x ∷ []) = Unit
IsAscending (x ∷ y ∷ l) = (text_ltb x y ≡ true) × IsAscending (y ∷ l)

abbrev IsSorted : List Text → Type 0
IsSorted [] = Unit
IsSorted (x ∷ []) = Unit
IsSorted (x ∷ y ∷ l) = (text_ltb y x ≡ false) × IsSorted (y ∷ l)

text_ltb_asymm : (a b : Text) → text_ltb a b ≡ true → text_ltb b a ≡ false
unfolding text_ltb
text_ltb_asymm (x ∷ a) (y ∷ b) h = ground (arith, text_ltb_asymm a b)
text_ltb_asymm _ _ h = ground arith

text_ltb_total : (a b : Text) → text_ltb a b ≡ false → text_ltb b a ≡ false → text_beq a b ≡ true
unfolding text_ltb text_beq
text_ltb_total (x ∷ a) (y ∷ b) h k = ground (arith, text_ltb_total a b)
text_ltb_total _ _ h k = ground arith

insert-IsSorted : (a : Text) (l : List Text) → IsSorted l → IsSorted (insert a l)
unfolding insert
insert-IsSorted a [] s = tt
insert-IsSorted a (x ∷ []) s = ground (arith, text_ltb_asymm x a)
insert-IsSorted a (x ∷ y ∷ l) s = ground (arith, text_ltb_asymm x a, insert-IsSorted a (y ∷ l) s.1)

sort-IsSorted : (l : List Text) → IsSorted (sort l)
unfolding sort
sort-IsSorted [] = tt
sort-IsSorted (x ∷ l) = insert-IsSorted x (sort l) (sort-IsSorted l)

contains-insert : (a b : Text) (l : List Text) → contains (insert a l) b ≡ (a == b || contains l b)
unfolding insert contains
contains-insert a b [] = refl
contains-insert a b (x ∷ l) = ground (arith, contains-insert a b l)

pub contains-sort : (b : Text) (l : List Text) → contains (sort l) b ≡ contains l b
unfolding sort contains
contains-sort b [] = refl
contains-sort b (x ∷ l) = ground (arith, contains-insert x b (sort l), contains-sort b l)

contains-compact : (b : Text) (l : List Text) → contains (compact l) b ≡ contains l b
unfolding compact contains
contains-compact b [] = refl
contains-compact b (x ∷ []) = refl
contains-compact b (x ∷ y ∷ l) = ground (arith, text_beq_iff x y, contains-compact b (y ∷ l))

compact-head : (y : Text) (l : List Text) → (t : List Text) × (compact (y ∷ l) ≡ y ∷ t)
unfolding compact
compact-head y [] = ([], refl)
compact-head y (z ∷ l) = elim (Bool-cases (y == z)) [
  | inl e ↦ let (t, h) = compact-head z l in (t, ground (arith, text_beq_iff y z))
  | inr e ↦ (compact (z ∷ l), rw e)
]

IsAscending-cons :
    (x y : Text) (l : List Text)
    → text_ltb x y ≡ true
    → IsAscending (compact (y ∷ l))
    → IsAscending (x ∷ compact (y ∷ l))
IsAscending-cons x y l h s = let (t, e) = compact-head y l in rw e (h, rw e at s)

compact-IsAscending : (l : List Text) → IsSorted l → IsAscending (compact l)
unfolding compact
compact-IsAscending [] s = tt
compact-IsAscending (x ∷ []) s = tt
compact-IsAscending (x ∷ y ∷ l) s = elim (Bool-cases (x == y)) [
  | inl e ↦ rw e (compact-IsAscending (y ∷ l) s.1)
  | inr e ↦ rw e (
      IsAscending-cons x y l (ground (arith, text_ltb_total x y, s.0))
        (compact-IsAscending (y ∷ l) s.1))
]

-- `slices.Compact(slices.Sort(l))`
unfoldable pub sort_compact : List Text → List Text
unfolding sort compact
sort_compact l = compact (sort l)

pub contains-sort_compact : (l : List Text) (b : Text) → contains (sort_compact l) b ≡ contains l b
contains-sort_compact l b = unfold sort_compact in (contains-compact b (sort l) ∙ contains-sort b l)

pub sort_compact-IsAscending : (l : List Text) → IsAscending (sort_compact l)
sort_compact-IsAscending l = unfold sort_compact in compact-IsAscending (sort l) (sort-IsSorted l)
