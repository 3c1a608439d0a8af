-- ===== src/Files/Required.antt =====
-- What it takes for `GotAllRequiredApprovals` to say yes, and how far the counts of files go.
use revchat.Base.{
  ℕ, ◌+◌, ◌≤◌, true, List, [], ◌∷◌, Option, none, some, length, All, ◌≡◌, subst, arith, Bool-cases,
  Option-cases, inl, inr, ◌⊎◌,
}
use mathlib.Core.Option.{some-injective}
use revchat.Base.Dict.{lookup}
use revchat.Base.Text.{Text, codes, text_eq}
use revchat.Cache.Store.{Cache}
use revchat.Files.Approvals.{Glob, get_owners, fallback_owners}
use revchat.Files.Groups.{parse_code_owners_file}
use revchat.Files.Parse.{CodeOwners}
use revchat.Files.Queries.{any_in, count_owned, owned_of, count_owned_files}
use revchat.Files.Safety.{Approves, AnyApproves}
use revchat.Files.Source.{Branch, Call, get_bitbucket_source_file}

module _ (glob : Glob) where
  -- The owners of a path all approve, or one of the fallback owners does.
  abbrev pub PathApproved : CodeOwners → List Text → Text → Type 0
  PathApproved c approvers path =
      (owners : List Text) × (get_owners glob c path ≡ some owners)
      × (All (Approves c approvers) owners
          ⊎ ((members : List Text) × (lookup fallback_owners c.groups ≡ some members)
              × AnyApproves c approvers members))

  count_owned-le :
      (c : CodeOwners) (names paths : List Text) (n : ℕ)
      → count_owned glob c names paths n ≤ n + length paths
  unfolding count_owned
  count_owned-le c names [] n = omega arith
  count_owned-le c names (p ∷ rest) n =
      let same = count_owned-le c names rest n in
      let counted = count_owned-le c names rest (n + 1) in
      elim (Option-cases (get_owners glob c p)) [
        | inl bad ↦ rw (bad, count_owned) (omega arith)
        | inr (owners, owned) ↦ elim (Bool-cases (any_in names owners)) [
          | inl held ↦ rw (owned, held, count_owned) (omega (arith, counted))
          | inr free ↦ rw (owned, free, count_owned) (omega (arith, same))
        ]
      ]

  owned_of-le :
      (names paths : List Text) (o : Option CodeOwners) → owned_of glob names paths o ≤ length paths
  owned_of-le names paths none = omega arith
  owned_of-le names paths (some c) = ground (arith, count_owned-le c names paths 0)

  -- `CountOwnedFiles` counts no more files than there are paths.
  count_owned_files-le :
      (fuel : ℕ) (at : Branch) (names paths : List Text) (call : Call) (cache : Cache Text) (n : ℕ)
      → (count_owned_files glob fuel at names paths call cache).0 ≡ some n
      → n ≤ length paths
  unfolding count_owned_files
  count_owned_files-le fuel at [] paths call cache n e = ground (arith, e)
  count_owned_files-le fuel at (name ∷ names) [] call cache n e = ground (arith, e)
  count_owned_files-le fuel at (name ∷ names) (p ∷ paths) call cache n e =
      elim (Option-cases (
        parse_code_owners_file fuel (get_bitbucket_source_file at (codes "CODEOWNERS") call cache).0
          true)) [
            | inl endless ↦ absurd (ground (arith, rw (endless, count_owned_files) at e))
            | inr (parsed, done) ↦
                subst (λ k. k ≤ length (p ∷ paths))
                  (some-injective (owned_of glob (name ∷ names) (p ∷ paths) parsed) n
                    (rw (done, count_owned_files) at e))
                  (owned_of-le (name ∷ names) (p ∷ paths) parsed)
          ]
