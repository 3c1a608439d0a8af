-- ===== src/Files/Safety.antt =====
-- What it takes for `allApproved` to say yes.
use revchat.Base.{
  ℕ, zero, suc, ◌+◌, ◌≤◌, ◌<◌, Bool, true, false, List, [], ◌∷◌, Option, none, some, length,
  contains, All, beq_refl, ◌≡◌, ap, ◌∙◌, arith, Bool-cases, Option-cases, inl, inr, ◌⊎◌,
}
use revchat.Base.Dict.{lookup}
use revchat.Base.Text.{Text, text_eq}
use revchat.Files.Groups.{is_group}
use revchat.Files.Parse.{CodeOwners}
use revchat.Files.Approvals.{fallback_owners, count_approvals, enough_approvals, all_approved}

-- A user approves for themselves, and for each group with a member that approves.
pub data Approves (c : CodeOwners) (approvers : List Text) : Text → Type 0 where
  user :
      {name : Text}
      → is_group name ≡ false
      → contains approvers name ≡ true
      → Approves c approvers name
  group :
      {name : Text} (members : List Text) (m : Text)
      → is_group name ≡ true
      → lookup name c.groups ≡ some members
      → contains members m ≡ true
      → Approves c approvers m
      → Approves c approvers name

module _ (c : CodeOwners) (approvers : List Text) where
  abbrev pub AnyApproves : List Text → Type 0
  AnyApproves names = (m : Text) × (contains names m ≡ true) × Approves c approvers m

  record Counted (names : List Text) (before n : ℕ) : Type 0 where
    bounded : n ≤ before + length names
    all_of : n ≡ before + length names → All (Approves c approvers) names
    any_of : before < n → AnyApproves names

  AnyApproves-cons : (name : Text) (rest : List Text) → AnyApproves rest → AnyApproves (name ∷ rest)
  unfolding contains
  AnyApproves-cons name rest (m, k, a) = (m, ground arith, a)

  Counted-approved :
      (name : Text) (rest : List Text) (before n : ℕ)
      → Approves c approvers name
      → Counted rest (before + 1) n
      → Counted (name ∷ rest) before n
  unfolding contains
  Counted-approved name rest before n a k = record {
    bounded = omega (arith, k.bounded);
    all_of = λ e. (a, k.all_of (omega (arith, e)));
    any_of = λ lt. (name, ground (arith, beq_refl name), a);
  }

  Counted-skipped :
      (name : Text) (rest : List Text) (before n : ℕ)
      → Counted rest before n
      → Counted (name ∷ rest) before n
  Counted-skipped name rest before n k = record {
    bounded = omega (arith, k.bounded);
    all_of = λ e. absurd (omega (arith, e, k.bounded));
    any_of = λ lt. AnyApproves-cons name rest (k.any_of lt);
  }

  CountOk : List Text → ℕ → Option (Option ℕ) → Type 0
  CountOk names before none = Unit
  CountOk names before (some none) = Unit
  CountOk names before (some (some n)) = Counted names before n

  yes-CountOk :
      (name : Text) (rest : List Text) (before : ℕ) (o : Option (Option ℕ))
      → Approves c approvers name
      → CountOk rest (before + 1) o
      → CountOk (name ∷ rest) before o
  unfolding CountOk
  yes-CountOk name rest before none a k = tt
  yes-CountOk name rest before (some none) a k = tt
  yes-CountOk name rest before (some (some n)) a k = Counted-approved name rest before n a k

  no-CountOk :
      (name : Text) (rest : List Text) (before : ℕ) (o : Option (Option ℕ))
      → CountOk rest before o
      → CountOk (name ∷ rest) before o
  unfolding CountOk
  no-CountOk name rest before none k = tt
  no-CountOk name rest before (some none) k = tt
  no-CountOk name rest before (some (some n)) k = Counted-skipped name rest before n k

  count_approvals-Ok :
      (approved : List Text → Option Bool)
      → ((members : List Text) → approved members ≡ some true → AnyApproves members)
      → (names : List Text) (before : ℕ)
      → CountOk names before (count_approvals approved c approvers names before)
  unfolding count_approvals CountOk
  count_approvals-Ok approved ok [] before = record {
    bounded = omega arith;
    all_of = λ e. tt;
    any_of = λ lt. absurd (omega (arith, lt));
  }
  count_approvals-Ok approved ok (name ∷ rest) before =
      let y = count_approvals-Ok approved ok rest (before + 1) in
      let n = count_approvals-Ok approved ok rest before in
      elim (Bool-cases (is_group name)) [
        | inr plain ↦ elim (Bool-cases (contains approvers name)) [
          | inl in_it ↦
              rw (plain, in_it, count_approvals)
                (yes-CountOk name rest before
                  (count_approvals approved c approvers rest (before + 1)) (user plain in_it) y)
          | inr not_in ↦
              rw (plain, not_in, count_approvals)
                (no-CountOk name rest before (count_approvals approved c approvers rest before) n)
        ]
        | inl grouped ↦ elim (Option-cases (lookup name c.groups)) [
          | inl missing ↦ rw (grouped, missing, count_approvals) tt
          | inr (members, found) ↦ elim (Option-cases (approved members)) [
            | inl endless ↦ rw (grouped, found, endless, count_approvals) tt
            | inr (b, answer) ↦ elim (Bool-cases b) [
              | inl yes' ↦
                  let (m, held, a) = ok members (answer ∙ ap (λ x. some x) yes') in
                  rw (grouped, found, answer, yes', count_approvals)
                    (yes-CountOk name rest before
                      (count_approvals approved c approvers rest (before + 1))
                      (group members m grouped found held a) y)
              | inr no' ↦
                  rw (grouped, found, answer, no', count_approvals)
                    (no-CountOk name rest before (count_approvals approved c approvers rest before)
                      n)
            ]
          ]
        ]
      ]

  own-Any :
      (owners : List Text) (o : Option (Option ℕ))
      → CountOk owners 0 o
      → enough_approvals owners false o ≡ some true
      → AnyApproves owners
  unfolding CountOk
  own-Any owners none k e = absurd (ground (arith, e))
  own-Any owners (some none) k e = absurd (ground (arith, e))
  own-Any owners (some (some n)) k e = k.any_of (ground (arith, e))

  own-All :
      (owners : List Text) (o : Option (Option ℕ))
      → CountOk owners 0 o
      → enough_approvals owners true o ≡ some true
      → All (Approves c approvers) owners
  unfolding CountOk
  own-All owners none k e = absurd (ground (arith, e))
  own-All owners (some none) k e = absurd (ground (arith, e))
  own-All owners (some (some n)) k e = k.all_of (ground (arith, e))

  any_approved-Approves :
      (fuel : ℕ) (owners : List Text)
      → all_approved fuel c approvers owners false ≡ some true
      → AnyApproves owners
  unfolding all_approved
  any_approved-Approves zero owners e = absurd (ground (arith, e))
  any_approved-Approves (suc fuel) owners e =
      own-Any owners
        (count_approvals (λ members. all_approved fuel c approvers members false) c approvers owners
          0)
        (count_approvals-Ok (λ members. all_approved fuel c approvers members false)
          (any_approved-Approves fuel) owners 0)
        e

  -- A yes for all owners means that each owner approves, or that one of the fallback owners does.
  pub all_approved-Approves :
      (fuel : ℕ) (owners : List Text)
      → all_approved fuel c approvers owners true ≡ some true
      → All (Approves c approvers) owners
        ⊎ ((members : List Text) × (lookup fallback_owners c.groups ≡ some members)
            × AnyApproves members)
  unfolding all_approved
  all_approved-Approves zero owners e = absurd (ground (arith, e))
  all_approved-Approves (suc fuel) owners e =
      let by_group : List Text → Option Bool =
        λ members. all_approved fuel c approvers members false in
      let o = count_approvals by_group c approvers owners 0 in
      let ok = count_approvals-Ok by_group (any_approved-Approves fuel) owners 0 in
      elim (Option-cases (lookup fallback_owners c.groups)) [
        | inl missing ↦ inl (own-All owners o ok (rw (missing, all_approved) at e))
        | inr (special, found) ↦ elim (Option-cases (by_group special)) [
          | inl endless ↦ absurd (ground (arith, rw (found, endless, all_approved) at e))
          | inr (b, answer) ↦ elim (Bool-cases b) [
            | inl b_is ↦ inr (
              special,
              found,
              any_approved-Approves fuel special (answer ∙ ap (λ x. some x) b_is),
            )
            | inr b_not ↦ inl (own-All owners o ok (rw (found, answer, b_not, all_approved) at e))
          ]
        ]
      ]
