-- ===== src/Turns/Invariant.antt =====
-- Whatever fails and whatever an operation is called with, what it leaves on the disk is normalized.
use revchat.Base.{Bool, true, Option, none, some, List, [], ◌∷◌, ◌≡◌, refl, subst, arith}
use mathlib.Core.Option.{some-injective}
use revchat.Base.Dict.{IsMap, put-IsMap}
use revchat.Base.Text.{Text, text_eq, codes, Unicode, to_lower}
use revchat.DataFile
use revchat.DataFile.{
  Content, Disk, absent, empty, undecodable, stored, Loaded, value, gone, garbled, WriteOutcome,
  OpenOutcome,
}
use revchat.Json.{Json, Fields}
use revchat.Result.{Result, ok, err, Act, continue}
use revchat.Turns.File.{
  Env, TurnsFile, write_turns, repaired, read_snapshot, reset_turns, checked, read_turns,
}
use revchat.Turns.Normal.{IsNormal, HasMaps, normalize-IsNormal, IsNormal-HasMaps}
use revchat.Turns.Snapshot.{
  Lookups, recreated, reset_reviewer, reset_reviewers, reset_participant, reset_participants,
  user_activity, user_email_and_type, list_of,
}
use revchat.Turns.State.{Time, PrTurns, no_turns, normalize_email_addresses}

module _ (q : Lookups) where
  reset_reviewer-IsMap :
      (m : List (Text × Bool)) (j : Json) → IsMap m → IsMap (reset_reviewer q m j)
  unfolding reset_reviewer
  reset_reviewer-IsMap m j h = ground (arith, put-IsMap (user_email_and_type q j).0 true m h)

  reset_reviewers-IsMap :
      (m : List (Text × Bool)) (l : List Json) → IsMap m → IsMap (reset_reviewers q m l)
  unfolding reset_reviewers
  reset_reviewers-IsMap m [] h = h
  reset_reviewers-IsMap m (j ∷ l) h =
      reset_reviewers-IsMap (reset_reviewer q m j) l (reset_reviewer-IsMap m j h)

  abbrev AreMaps : List (Text × Time) × List (Text × Time) → Type 0
  AreMaps (activity, approvers) = IsMap activity × IsMap approvers

  reset_participant-AreMaps :
      (m : List (Text × Time) × List (Text × Time)) (j : Json)
      → AreMaps m
      → AreMaps (reset_participant q m j)
  unfolding reset_participant
  reset_participant-AreMaps (activity, approvers) j h =
      let (email, approved, at) = user_activity q j in
      ground (arith, put-IsMap email at activity h.0, put-IsMap email at approvers h.1)

  reset_participants-AreMaps :
      (m : List (Text × Time) × List (Text × Time)) (l : List Json)
      → AreMaps m
      → AreMaps (reset_participants q m l)
  unfolding reset_participants
  reset_participants-AreMaps m [] h = h
  reset_participants-AreMaps m (j ∷ l) h =
      reset_participants-AreMaps (reset_participant q m j) l (reset_participant-AreMaps m j h)

  recreated-HasMaps : (pr : Fields) → HasMaps (recreated q pr)
  unfolding recreated
  recreated-HasMaps pr =
      let both = reset_participants-AreMaps ([], []) (list_of pr (codes "participants")) (tt, tt) in
      record {
        reviewers_map = reset_reviewers-IsMap [] (list_of pr (codes "reviewers")) tt;
        activity_map = both.0;
        approvers_map = both.1;
      }

module _ ⦃u : Unicode⦄ where
  -- A turns file that holds a normalized state, or none.
  abbrev pub IsFine : TurnsFile → Type 0
  IsFine (stored t) = IsNormal t
  IsFine _ = Unit

  -- The file is fine whatever the result is, and a result that is no error satisfies `P`.
  abbrev pub Leaves : {A : Type 0} → (A → Type 0) → Result A × TurnsFile → Type 0
  Leaves P (ok a, c) = P a × IsFine c
  Leaves P (err e, c) = IsFine c

  abbrev pub Anything : {A : Type 0} → A → Type 0
  Anything a = Unit

  pub continue-Leaves :
      {A B : Type 0} (P : A → Type 0) (Q : B → Type 0) (r : Result A × TurnsFile)
      (f : A → Act TurnsFile B)
      → Leaves P r
      → ((a : A) (c : TurnsFile) → P a → IsFine c → Leaves Q (f a c))
      → Leaves Q (continue r f)
  continue-Leaves P Q (ok a, c) f h k = k a c h.0 h.1
  continue-Leaves P Q (err e, c) f h k = h

  -- What the decoder finds in a fine file.
  abbrev IsLoaded : Loaded PrTurns → Type 0
  IsLoaded (value t) = IsNormal t
  IsLoaded _ = Unit

  no_turns-IsNormal : IsNormal no_turns
  unfolding to_lower
  no_turns-IsNormal = ground arith

  pub data_path-Leaves :
      (d : Disk) (c : TurnsFile) → IsFine c → Leaves Anything (DataFile.data_path no_turns d c)
  unfolding DataFile.data_path
  data_path-Leaves d absent h = ground (arith, no_turns-IsNormal)
  data_path-Leaves d c h = ground (arith, no_turns-IsNormal)

  overwrite-Leaves :
      (o : WriteOutcome) (t : PrTurns) (c : TurnsFile)
      → IsNormal t
      → IsFine c
      → Leaves Anything (DataFile.overwrite o t c)
  unfolding DataFile.overwrite
  overwrite-Leaves WriteOutcome.written t c n h = (tt, n)
  overwrite-Leaves WriteOutcome.not_opened t c n h = h
  overwrite-Leaves WriteOutcome.truncated t c n h = tt
  overwrite-Leaves WriteOutcome.torn t c n h = tt

  pub write_turns-Leaves :
      (d : Disk) (t : PrTurns) (c : TurnsFile)
      → HasMaps t
      → IsFine c
      → Leaves Anything (write_turns d t c)
  unfolding write_turns DataFile.write_json
  write_turns-Leaves d t c m h =
      continue-Leaves Anything Anything (DataFile.data_path no_turns d c) _ (data_path-Leaves d c h)
        (λ _ c' _ h'.
          overwrite-Leaves d.write_outcome (normalize_email_addresses t) c' (normalize-IsNormal t m)
            h')

  -- What `resetTurns` writes is a value with maps.
  repaired-HasMaps :
      (pr : Fields) (env : Env) (o : Option PrTurns)
      → ((t : PrTurns) → o ≡ some t → HasMaps t)
      → HasMaps (repaired pr env o)
  unfolding repaired
  repaired-HasMaps pr env none h = recreated-HasMaps env.lookups pr
  repaired-HasMaps pr env (some t) h = ground (arith, recreated-HasMaps env.lookups pr, h t refl)

  read_snapshot-Leaves :
      (s : Result (Option Fields)) (c : TurnsFile) → IsFine c → Leaves Anything (read_snapshot s c)
  unfolding read_snapshot
  read_snapshot-Leaves (ok none) c h = h
  read_snapshot-Leaves (ok (some pr)) c h = (tt, h)
  read_snapshot-Leaves (err e) c h = h

  reset_turns-Leaves :
      (env : Env) (o : Option PrTurns) (c : TurnsFile)
      → ((t : PrTurns) → o ≡ some t → HasMaps t)
      → IsFine c
      → Leaves IsNormal (reset_turns env o c)
  unfolding reset_turns
  reset_turns-Leaves env o c m h =
      continue-Leaves Anything IsNormal (read_snapshot env.snapshot c) _
        (read_snapshot-Leaves env.snapshot c h)
        (λ pr c' _ h'.
          continue-Leaves Anything IsNormal (write_turns env.resetting (repaired pr env o) c') _
            (write_turns-Leaves env.resetting _ c' (repaired-HasMaps pr env o m) h')
            (λ _ c'' _ h''. (normalize-IsNormal _ (repaired-HasMaps pr env o m), h'')))

  value_HasMaps : (t : PrTurns) → IsNormal t → (s : PrTurns) → some t ≡ some s → HasMaps s
  value_HasMaps t n s e = subst HasMaps (some-injective t s e) (IsNormal-HasMaps t n)

  decode-Leaves :
      (o : OpenOutcome) (c : TurnsFile) → IsFine c → Leaves IsLoaded (DataFile.decode o c)
  unfolding DataFile.decode
  decode-Leaves OpenOutcome.opened (stored v) h = (h, h)
  decode-Leaves OpenOutcome.opened _ h = (tt, h)
  decode-Leaves OpenOutcome.not_exist c h = (tt, tt)
  decode-Leaves OpenOutcome.refused c h = h

  checked-Leaves :
      (env : Env) (l : Loaded PrTurns) (c : TurnsFile)
      → IsLoaded l
      → IsFine c
      → Leaves IsNormal (checked env l c)
  unfolding checked
  checked-Leaves env gone c l h = reset_turns-Leaves env none c (λ t e. ground arith) h
  checked-Leaves env garbled c l h = reset_turns-Leaves env none c (λ t e. ground arith) h
  checked-Leaves env (value t) c l h = ground (
    arith,
    reset_turns-Leaves env (some t) c (value_HasMaps t l) h,
    normalize-IsNormal t (IsNormal-HasMaps t l),
  )

  -- What `readTurns` returns is normalized, and so is the file that it leaves.
  pub read_turns-Leaves :
      (env : Env) (c : TurnsFile) → IsFine c → Leaves IsNormal (read_turns env c)
  unfolding read_turns DataFile.load
  read_turns-Leaves env c h =
      continue-Leaves IsLoaded IsNormal (DataFile.load no_turns env.reading c) (checked env)
        (continue-Leaves Anything IsLoaded (DataFile.data_path no_turns env.reading c) _
          (data_path-Leaves env.reading c h)
          (λ _ c' _ h'. decode-Leaves env.reading.open_outcome c' h'))
        (λ l c' p h'. checked-Leaves env l c' p h')
