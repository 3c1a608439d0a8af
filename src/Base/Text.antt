-- ===== src/Base/Text.antt =====
-- Go strings as lists of code points, and the functions of package strings that the program uses.
use Prim.Native.Char.{code}
use Prim.Native.String.{String}
use Prim.Native.Nat.{ℕ, ◌+◌, ◌≤◌}
use mathlib.Core.Path.{◌≡◌, refl, ap₂}
use mathlib.Core.Bool.{Bool, true, false, ◌&&◌}
use mathlib.Core.List.{List, [], ◌∷◌, map}
use mathlib.Core.Logic.{◌↔◌}
use native.Mathlib.Omega.{arith}
use revchat.Base.Tests.{Comparable, ◌==◌, nat_eq, ltb, leb, if◌then◌else◌}

abbrev pub Text : Type 0
Text = List ℕ

-- The code points of a literal. `String` has its own `[]` and `∷`.
abbrev pub codes : String → Text
codes String.[] = []
codes (String.◌∷◌ c s) = code c ∷ codes s

unfoldable pub text_beq : Text → Text → Bool
text_beq [] [] = true
text_beq (x ∷ xs) (y ∷ ys) = nat_eq x y && text_beq xs ys
text_beq _ _ = false

pub text_beq_iff : (a b : Text) → (text_beq a b ≡ true) ↔ (a ≡ b)
unfolding text_beq
text_beq_iff (x ∷ a) (y ∷ b) = ground (arith, text_beq_iff a b)
text_beq_iff _ _ = ground arith

instance abbrev pub text_eq : Comparable Text
text_eq = record { equals = text_beq; equals_iff = text_beq_iff }

-- `strings.HasPrefix(s, prefix)`
unfoldable pub has_prefix : Text → Text → Bool
has_prefix s [] = true
has_prefix [] (p ∷ ps) = false
has_prefix (c ∷ s) (p ∷ ps) = nat_eq c p && has_prefix s ps

-- Case below the code point 128; `wide` is the case mapping of the others.
abbrev pub lower_with : (ℕ → ℕ) → ℕ → ℕ
lower_with wide c = if ltb c 128 then (if leb b'A' c && leb c b'Z' then c + 32 else c) else wide c

pub lower_with-wide : (c : ℕ) → 128 ≤ c → lower_with (λ d. d) c ≡ c
lower_with-wide c h = ground arith

-- The Unicode tables behind package unicode: the lower case of the code points from 128 on.
-- A second mapping changes nothing, as in those tables.
pub record Unicode : Type 0 where
  pub wide_lower : ℕ → ℕ
  pub wide_lower_idem : (c : ℕ) → 128 ≤ c → lower_with wide_lower (wide_lower c) ≡ wide_lower c

module _ ⦃u : Unicode⦄ where
  -- `unicode.ToLower`
  unfoldable pub lower_rune : ℕ → ℕ
  lower_rune = lower_with u.wide_lower

  -- `strings.ToLower`
  unfoldable pub to_lower : Text → Text
  to_lower s = map lower_rune s

  pub lower_rune_idem : (c : ℕ) → lower_rune (lower_rune c) ≡ lower_rune c
  unfolding lower_rune
  lower_rune_idem c = ground (arith, u.wide_lower_idem c)

  pub to_lower_idem : (s : Text) → to_lower (to_lower s) ≡ to_lower s
  unfolding to_lower
  to_lower_idem [] = refl
  to_lower_idem (c ∷ s) = ap₂ ◌∷◌ (lower_rune_idem c) (to_lower_idem s)

  -- A text in lower case.
  abbrev pub IsLower : Text → Type 0
  IsLower s = to_lower s ≡ s

  pub to_lower-ne-nil : (c : ℕ) (s : Text) → (to_lower (c ∷ s) == []) ≡ false
  unfolding to_lower text_beq
  to_lower-ne-nil c s = refl

-- Tables for texts with no letter from the code point 128 on.
instance abbrev pub plain : Unicode
plain = record { wide_lower = λ c. c; wide_lower_idem = λ c h. lower_with-wide c h }
