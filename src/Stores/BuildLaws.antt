-- ===== src/Stores/BuildLaws.antt =====
-- What an update leaves of the states of the builds.
use revchat.Base.{
  List, [], ◌∷◌, none, some, if◌then◌else◌, ◌==◌, ◌≡◌, refl, subst, arith, Bool-cases, Option-cases,
  inl, inr,
}
use mathlib.Core.Option.{some-injective}
use revchat.Base.Dict.{lookup, put, lookup-put}
use revchat.Base.Text.{Text, text_eq}
use revchat.DataFile.{stored}
use revchat.DataFile.Laws.{IsHealthy, load-stored, write_json-stored}
use revchat.Result.{ok}
use revchat.Stores.Access.{Access}
use revchat.Stores.Builds.{
  CommitStatus, PrStatus, no_status, read_bitbucket_builds, updated, update_bitbucket_builds,
}

abbrev pub builds_of : PrStatus → List (Text × CommitStatus)
builds_of s = elim s.builds [ none ↦ [] | some m ↦ m ]

-- The builds after an update: the new one, and the old ones of the same commit.
abbrev pub IsUpdate : PrStatus → Text → Text → CommitStatus → PrStatus → Type 0
IsUpdate s hash key cs s' =
    (s'.commit_hash ≡ hash)
    × ((j : Text)
        → lookup j (builds_of s') ≡ (
            if key == j
            then some cs
            else if s.commit_hash == hash
            then lookup j (builds_of s)
            else none))

updated-IsUpdate :
    (s : PrStatus) (hash key : Text) (cs : CommitStatus) (s' : PrStatus)
    → updated s hash key cs ≡ some s'
    → IsUpdate s hash key cs s'
unfolding updated lookup
updated-IsUpdate s hash key cs s' e = elim (Bool-cases (s.commit_hash == hash)) [
  | inl same ↦ elim (Option-cases s.builds) [
    | inl nil ↦ absurd (ground (arith, rw (same, nil, updated) at e))
    | inr (m, there) ↦
        let s'-is =
          some-injective (record s { builds = some (put key cs m) }) s'
            (rw (same, there, updated) at e) in
        subst (IsUpdate s hash key cs) s'-is (
          (text_eq.equals_iff s.commit_hash hash).0 same,
          λ j. rw (lookup-put key j cs m, same, there) refl,
        )
  ]
  | inr other ↦
      let s'-is =
        some-injective (record { commit_hash = hash; builds = some ((key, cs) ∷ []) }) s'
          (rw (other, updated) at e) in
      subst (IsUpdate s hash key cs) s'-is (refl, λ j. rw other refl)
]

-- On a disk that answers, an update that does not panic stores the new state of a build beside those
-- of the same commit and drops those of another; a reading then finds what was stored.
pub update_bitbucket_builds-IsUpdate :
    (a : Access) (s : PrStatus) (hash key : Text) (cs : CommitStatus) (s' : PrStatus)
    → IsHealthy a.reading
    → IsHealthy a.writing
    → updated s hash key cs ≡ some s'
    → (update_bitbucket_builds a hash key cs (stored s) ≡ (ok tt, stored s'))
      × (read_bitbucket_builds a (stored s') ≡ (ok (some s'), stored s'))
      × IsUpdate s hash key cs s'
unfolding update_bitbucket_builds read_bitbucket_builds
update_bitbucket_builds-IsUpdate a s hash key cs s' reads writes e = (
  rw (load-stored no_status reads s, e, write_json-stored no_status writes s' (stored s)) refl,
  rw (load-stored no_status reads s') refl,
  updated-IsUpdate s hash key cs s' e,
)

-- The only panic of an update: the first builds of an empty commit hash.
updated-none :
    (s : PrStatus) (hash key : Text) (cs : CommitStatus)
    → updated s hash key cs ≡ none
    → (s.commit_hash ≡ hash) × (s.builds ≡ none)
unfolding updated
updated-none s hash key cs e = elim (Bool-cases (s.commit_hash == hash)) [
  | inl same ↦ elim (Option-cases s.builds) [
    | inl nil ↦ ((text_eq.equals_iff s.commit_hash hash).0 same, nil)
    | inr (m, there) ↦ absurd (ground (arith, rw (same, there, updated) at e))
  ]
  | inr other ↦ absurd (ground (arith, rw (other, updated) at e))
]
