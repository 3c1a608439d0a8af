-- ===== src/Turns/Reset.antt =====
-- What `resetTurns` makes of a turns file that is missing or broken.
use revchat.Base.{
  Bool, true, false, not, ◌&&◌, ◌||◌, Option, none, some, List, [], ◌∷◌, ◌==◌, ◌≡◌, refl, ap, ◌∙◌,
  arith, All, Option-cases, inl, inr,
}
use revchat.Base.Dict.{lookup, lookup-put}
use revchat.Base.Text.{Text, codes, text_eq, text_beq, text_beq_iff, Unicode, to_lower, IsLower}
use revchat.DataFile
use revchat.DataFile.{Content, Disk, stored, absent, empty, undecodable}
use revchat.DataFile.Laws.{IsHealthy, write_json-stored}
use revchat.Result.{ok}
use revchat.Turns.File.{
  Env, TurnsFile, read_snapshot, repaired, reset_turns, write_turns, read_turns,
}
use revchat.Turns.Normal.{LowerKeys, put-LowerKeys, lower_keys_of_LowerKeys}
use revchat.Json.{Json, Fields, get, as_text, as_object}
use revchat.Turns.Attention.{flag}
use revchat.Turns.Snapshot.{
  Lookups, list_of, user_email_and_type, user_activity, reset_reviewer, reset_reviewers,
  reset_participant, reset_participants, recreated,
}
use revchat.Turns.State.{Time, PrTurns, no_turns, lower_keys, normalize_email_addresses}

-- The address that the directory has for the account of a snapshot's entry.
abbrev pub email_of : Lookups → Json → Text
email_of q j = (user_email_and_type q j).0

-- Whether some entry's account has this address, which is not empty.
abbrev pub names : Lookups → List Json → Text → Bool
names q [] who = false
names q (j ∷ l) who = (not (who == []) && email_of q j == who) || names q l who

-- An entry that holds no account ID of its own, such as a participant in Bitbucket's payloads,
-- which has its account one level below, in the field "user".
abbrev pub HasNoAccountId : Json → Type 0
HasNoAccountId (Json.obj m) = as_text (get (codes "account_id") m) ≡ none
HasNoAccountId _ = Unit

module _ (q : Lookups) where
  flag-reset_reviewer :
      (m : List (Text × Bool)) (j : Json) (who : Text)
      → flag who (reset_reviewer q m j) ≡ (flag who m || (not (who == []) && email_of q j == who))
  unfolding reset_reviewer
  flag-reset_reviewer m j who = ground (
    arith,
    lookup-put (email_of q j) who true m,
    text_beq_iff (email_of q j) who,
    text_beq_iff (email_of q j) [],
    text_beq_iff who [],
  )

  flag-reset_reviewers :
      (m : List (Text × Bool)) (l : List Json) (who : Text)
      → flag who (reset_reviewers q m l) ≡ (flag who m || names q l who)
  unfolding reset_reviewers
  flag-reset_reviewers m [] who = ground arith
  flag-reset_reviewers m (j ∷ l) who =
      ground (arith, flag-reset_reviewers (reset_reviewer q m j) l who, flag-reset_reviewer m j who)

  -- A reset gives the turn to exactly the reviewers in the snapshot whose address is known.
  pub recreated-reviewers :
      (pr : Fields) (who : Text)
      → flag who (recreated q pr).reviewers ≡ names q (list_of pr (codes "reviewers")) who
  unfolding recreated lookup
  recreated-reviewers pr who = flag-reset_reviewers [] (list_of pr (codes "reviewers")) who

  reset_participant_skips :
      (m : List (Text × Time) × List (Text × Time)) (j : Json)
      → HasNoAccountId j
      → reset_participant q m j ≡ m
  unfolding reset_participant user_activity as_object text_beq
  reset_participant_skips (a, b) (Json.obj m) h = rw h
  reset_participant_skips (a, b) _ h = refl

  reset_participants_skip :
      (m : List (Text × Time) × List (Text × Time)) (l : List Json)
      → All HasNoAccountId l
      → reset_participants q m l ≡ m
  unfolding reset_participants
  reset_participants_skip m [] h = refl
  reset_participants_skip m (j ∷ l) h =
      rw (reset_participant_skips m j h.0) (reset_participants_skip m l h.1)

  recreated-participants :
      (pr : Fields)
      → All HasNoAccountId (list_of pr (codes "participants"))
      → ((recreated q pr).activity ≡ []) × ((recreated q pr).approvers ≡ [])
  unfolding recreated
  recreated-participants pr h =
      let e = reset_participants_skip ([], []) (list_of pr (codes "participants")) h in
      (ap (λ m. m.0) e, ap (λ m. m.1) e)

-- A file that holds no state.
abbrev pub IsBroken : TurnsFile → Type 0
IsBroken (stored t) = ⊥
IsBroken _ = Unit

module _ ⦃u : Unicode⦄ where
  email_of-IsLower :
      (q : Lookups) (j : Json)
      → ((id kind : Text) → IsLower (q.bitbucket_id_to_email id kind))
      → IsLower (email_of q j)
  unfolding user_email_and_type to_lower as_object
  email_of-IsLower q (Json.obj m) h = elim (Option-cases (as_text (get (codes "account_id") m))) [
    | inl e ↦ rw (e, email_of)
    | inr (id, e) ↦ rw (e, email_of) (h id _)
  ]
  email_of-IsLower q _ h = refl

  reset-LowerKeys :
      (q : Lookups) (m : List (Text × Bool)) (l : List Json)
      → ((id kind : Text) → IsLower (q.bitbucket_id_to_email id kind))
      → LowerKeys m
      → LowerKeys (reset_reviewers q m l)
  unfolding reset_reviewers reset_reviewer
  reset-LowerKeys q m [] h n = n
  reset-LowerKeys q m (j ∷ l) h n =
      reset-LowerKeys q (reset_reviewer q m j) l h
        (ground (arith, n, put-LowerKeys (email_of q j) true m (email_of-IsLower q j h) n))

  recreated-LowerKeys :
      (q : Lookups) (pr : Fields)
      → ((id kind : Text) → IsLower (q.bitbucket_id_to_email id kind))
      → LowerKeys (recreated q pr).reviewers
  unfolding recreated
  recreated-LowerKeys q pr l = reset-LowerKeys q [] (list_of pr (codes "reviewers")) l tt

  reset_turns-healthy :
      (env : Env) (o : Option PrTurns) (c : TurnsFile) (pr : Fields)
      → IsHealthy env.resetting
      → env.snapshot ≡ ok (some pr)
      → repaired pr env o ≡ recreated env.lookups pr
      → reset_turns env o c ≡ (
        ok (normalize_email_addresses (recreated env.lookups pr)),
        stored (normalize_email_addresses (recreated env.lookups pr)),
      )
  unfolding reset_turns read_snapshot write_turns
  reset_turns-healthy env o c pr h s e =
      simp (
        s,
        e,
        write_json-stored no_turns h (normalize_email_addresses (recreated env.lookups pr)) c,
      )

  -- A turns file that is missing, empty or undecodable is written anew from the snapshot.
  read_turns-broken :
      (env : Env) (c : TurnsFile) (pr : Fields)
      → IsHealthy env.reading
      → IsHealthy env.resetting
      → env.snapshot ≡ ok (some pr)
      → IsBroken c
      → read_turns env c ≡ (
        ok (normalize_email_addresses (recreated env.lookups pr)),
        stored (normalize_email_addresses (recreated env.lookups pr)),
      )
  unfolding read_turns DataFile.load DataFile.data_path DataFile.decode repaired text_beq
  read_turns-broken env absent pr h k s b =
      simp (h.path_ok, h.fixed, h.can_open)
        (reset_turns-healthy env (some no_turns) (stored no_turns) pr k s refl)
  read_turns-broken env empty pr h k s b =
      simp (h.path_ok, h.fixed, h.can_open)
        (reset_turns-healthy env (some no_turns) (stored no_turns) pr k s refl)
  read_turns-broken env undecodable pr h k s b =
      simp (h.path_ok, h.fixed, h.can_open) (reset_turns-healthy env none undecodable pr k s refl)
  read_turns-broken env (stored t) pr h k s b = absurd b

  -- If the disk answers and there is a snapshot, reading a file that holds no state succeeds, and the
  -- file holds the turns that are returned. Their map of reviewers has the flag of a turn for exactly
  -- the reviewers in the snapshot whose address is known, provided that known addresses are in lower
  -- case.
  pub read_turns-reset :
      (env : Env) (c : TurnsFile) (pr : Fields)
      → IsHealthy env.reading
      → IsHealthy env.resetting
      → env.snapshot ≡ ok (some pr)
      → IsBroken c
      → ((id kind : Text) → IsLower (env.lookups.bitbucket_id_to_email id kind))
      → (t : PrTurns) × (read_turns env c ≡ (ok t, stored t))
        × ((who : Text)
            → flag who t.reviewers ≡ names env.lookups (list_of pr (codes "reviewers")) who)
  unfolding normalize_email_addresses
  read_turns-reset env c pr h k s b l =
      let q = env.lookups in
      (
        normalize_email_addresses (recreated q pr),
        read_turns-broken env c pr h k s b,
        λ who.
            ap (flag who) (
              lower_keys_of_LowerKeys (λ _. true) (recreated q pr).reviewers
                (recreated q pr).reviewers (recreated-LowerKeys q pr l))
            ∙ recreated-reviewers q pr who,
      )

  -- Reading a file that holds no state, where the disk and the snapshot can be read, drops every
  -- approval and every time of activity, if no participant in the snapshot holds an account ID of its
  -- own: the reset looks for the ID beside "approved", not in "user".
  pub read_turns_loses_approvals :
      (env : Env) (c : TurnsFile) (pr : Fields)
      → IsHealthy env.reading
      → IsHealthy env.resetting
      → env.snapshot ≡ ok (some pr)
      → IsBroken c
      → All HasNoAccountId (list_of pr (codes "participants"))
      → (t : PrTurns) × (read_turns env c ≡ (ok t, stored t))
        × (t.approvers ≡ [])
        × (t.activity ≡ [])
  unfolding normalize_email_addresses lower_keys
  read_turns_loses_approvals env c pr h k s b l =
      let q = env.lookups in
      let (a, p) = recreated-participants q pr l in
      (normalize_email_addresses (recreated q pr), read_turns-broken env c pr h k s b, rw p, rw a)
