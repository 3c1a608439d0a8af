-- ===== src/Turns/Reviewers.antt =====
-- `SetReviewerTurn` and `RemoveReviewerFromTurns`.
use revchat.Base.{
  Bool, true, false, not, ◌&&◌, ◌||◌, Option, none, some, List, [], ◌∷◌, ◌==◌, ◌≡◌, refl, sym, ◌∙◌,
  arith, contains, beq_refl, Bool-cases, Option-cases, inl, inr,
}
use revchat.Base.Dict.{
  lookup, has_key, IsMap, lookup-put, has_key-put, put-IsMap, lookup_of_not-has_key,
}
use revchat.Base.Text.{Text, text_eq, text_beq_iff, Unicode, IsLower}
use revchat.DataFile.{stored}
use revchat.Result.{Result, ok, continue, ◌>>=◌}
use revchat.Turns.Attention.{has_turn, contains-current_turn_emails}
use revchat.Turns.File.{Env, TurnsFile}
use revchat.Turns.Healthy.{IsReady, write_turns-stored, read_turns-stored}
use revchat.Turns.Normal.{put-IsNormalMap}
use revchat.Turns.Ops.{Nudge, time_of, early_answer, with_turn, set_reviewer, set_reviewer_turn}
use revchat.Turns.Queries.{
  is_real_author, some_without_turn, current_turn_emails, read_current_turn_emails,
}
use revchat.Turns.State.{is_zero, PrTurns}
use revchat.Turns.Switch.{read_current_turn_emails-stored}

-- A tracked reviewer has a flag.
has_key-lookup :
    (k : Text) (m : List (Text × Bool)) → has_key k m ≡ true → (b : Bool) × (lookup k m ≡ some b)
unfolding has_key lookup
has_key-lookup k [] h = absurd (cc)
has_key-lookup k ((j, b) ∷ m) h = elim (Bool-cases (j == k)) [
  | inl e ↦ (b, rw e)
  | inr e ↦ rw e (has_key-lookup k m (ground arith))
]

some_without_turn_of_lookup :
    (k : Text) (m : List (Text × Bool)) → lookup k m ≡ some false → some_without_turn m ≡ true
unfolding lookup some_without_turn
some_without_turn_of_lookup k [] h = absurd (cc)
some_without_turn_of_lookup k ((j, b) ∷ m) h = ground (arith, some_without_turn_of_lookup k m)

module _ ⦃u : Unicode⦄ where
  with_turn-IsReady :
      {env : Env} {t : PrTurns} (email : Text)
      → IsReady env t
      → IsLower email
      → IsReady env (with_turn t email)
  unfolding with_turn
  with_turn-IsReady {env} {t} email r l = record {
    reads = r.reads;
    writes = r.writes;
    normal = record {
      author_lower = r.normal.author_lower;
      frozen_by_lower = r.normal.frozen_by_lower;
      reviewers_normal = put-IsNormalMap email true t.reviewers l r.normal.reviewers_normal;
      activity_normal = r.normal.activity_normal;
      approvers_normal = r.normal.approvers_normal;
    };
    has_author = r.has_author;
  }

  -- What `SetReviewerTurn` returns and writes, by what it decides before the state change.
  abbrev pub decided : PrTurns → Text → Option Nudge → Result Nudge × TurnsFile
  decided t email (some a) = (ok a, stored t)
  decided t email none =
      (ok (record { allowed = true; approved = false }), stored (with_turn t email))

  set_reviewer-decided :
      {env : Env} {t : PrTurns} (email : Text) (o : Option Nudge)
      → IsReady env t
      → IsLower email
      → set_reviewer env t email o (stored t) ≡ decided t email o
  unfolding set_reviewer
  set_reviewer-decided email (some a) r l = refl
  set_reviewer-decided {env} {t} email none r l = rw (
      write_turns-stored (with_turn t email) (stored t) r.writes
        (with_turn-IsReady email r l).normal)

  pub set_reviewer_turn-stored :
      {env : Env} {t : PrTurns} (email : Text) (nudge : Bool)
      → IsReady env t
      → IsLower email
      → set_reviewer_turn env email nudge (stored t) ≡ decided t email (early_answer t email nudge)
  unfolding set_reviewer_turn
  set_reviewer_turn-stored {env} {t} email nudge r l =
      rw (read_turns-stored r) (set_reviewer-decided email (early_answer t email nudge) r l)

  -- After the state change, the same call decides that there is nothing to do.
  early_answer-with_turn :
      (t : PrTurns) (email : Text) (nudge : Bool)
      → early_answer (with_turn t email) email nudge
        ≡ some (record { allowed = true; approved = false })
  unfolding early_answer with_turn
  early_answer-with_turn t email nudge = ground (
    arith,
    beq_refl email,
    lookup-put email email true t.reviewers,
    has_key-put email email true t.reviewers,
  )

  decided-again :
      {env : Env} {t : PrTurns} (email : Text) (nudge : Bool) (o : Option Nudge)
      → IsReady env t
      → IsLower email
      → early_answer t email nudge ≡ o
      → continue (decided t email o) (λ _. set_reviewer_turn env email nudge) ≡ decided t email o
  decided-again email nudge (some a) r l e = set_reviewer_turn-stored email nudge r l ∙ rw e
  decided-again {env} {t} email nudge none r l e =
      set_reviewer_turn-stored email nudge (with_turn-IsReady email r l) l
      ∙ rw (early_answer-with_turn t email nudge)

  -- `SetReviewerTurn` is idempotent: a second call leaves the same file and returns the same pair.
  set_reviewer_turn_idem :
      {env : Env} {t : PrTurns} (email : Text) (nudge : Bool)
      → IsReady env t
      → IsLower email
      → (set_reviewer_turn env email nudge >>= λ _. set_reviewer_turn env email nudge) (stored t)
        ≡ set_reviewer_turn env email nudge (stored t)
  set_reviewer_turn_idem {env} {t} email nudge r l =
      rw (set_reviewer_turn-stored email nudge r l)
        (decided-again email nudge (early_answer t email nudge) r l refl)

  -- What the file reports on turns after a call of `SetReviewerTurn`.
  pub read-set_reviewer_turn :
      {env : Env} {t : PrTurns} (email : Text) (nudge : Bool)
      → IsReady env t
      → IsLower email
      → (set_reviewer_turn env email nudge >>= λ _. read_current_turn_emails env) (stored t)
        ≡ elim (early_answer t email nudge) [
          | some a ↦ (ok (current_turn_emails t), stored t)
          | none ↦ (ok (current_turn_emails (with_turn t email)), stored (with_turn t email))
        ]
  read-set_reviewer_turn {env} {t} email nudge r l =
      rw (set_reviewer_turn-stored email nudge r l)
        (elim (Option-cases (early_answer t email nudge)) [
          | inl e ↦ rw (e, decided) (read_current_turn_emails-stored (with_turn-IsReady email r l))
          | inr (a, e) ↦ rw (e, decided) (read_current_turn_emails-stored r)
        ])

  early_answer-nudge :
      (t : PrTurns) (email : Text)
      → early_answer t email true ≡ none
      → (email == t.author || has_key email t.reviewers) ≡ true
  unfolding early_answer
  early_answer-nudge t email e = elim (Bool-cases (has_key email t.reviewers)) [
    | inl k ↦ ground arith
    | inr k ↦ ground (arith, lookup_of_not-has_key email t.reviewers k)
  ]

  answer-nudge :
      (t : PrTurns) (email : Text) (a : Nudge)
      → early_answer t email true ≡ some a
      → (a.allowed ≡ (email == t.author || has_key email t.reviewers))
        × (a.approved ≡ (not a.allowed && not (is_zero (time_of email t.approvers))))
  unfolding early_answer
  answer-nudge t email a e = elim (Bool-cases (has_key email t.reviewers)) [
    | inl k ↦ let (b, found) = has_key-lookup email t.reviewers k in ground (arith, found)
    | inr k ↦ ground (arith, lookup_of_not-has_key email t.reviewers k)
  ]

  with_turn-contains :
      (t : PrTurns) (email : Text)
      → IsMap t.reviewers
      → contains (current_turn_emails (with_turn t email)) email ≡ true
  unfolding with_turn
  with_turn-contains t email m =
      contains-current_turn_emails (with_turn t email) email (put-IsMap email true t.reviewers m)
      ∙ ground (arith, lookup-put email email true t.reviewers, beq_refl email)

  -- A nudge is allowed exactly for the author and the tracked reviewers; a refused one says whether
  -- the user has approved.
  pub set_reviewer_turn-nudge :
      {env : Env} {t : PrTurns} (email : Text)
      → IsReady env t
      → IsLower email
      → (a : Nudge) × ((set_reviewer_turn env email true (stored t)).0 ≡ ok a)
        × (a.allowed ≡ (email == t.author || has_key email t.reviewers))
        × (a.approved ≡ (not a.allowed && not (is_zero (time_of email t.approvers))))
  set_reviewer_turn-nudge {env} {t} email r l =
      rw (set_reviewer_turn-stored email true r l)
        (elim (Option-cases (early_answer t email true)) [
          | inl e ↦ (
            record { allowed = true; approved = false },
            rw (e, decided),
            sym (early_answer-nudge t email e),
            refl,
          )
          | inr (a, e) ↦ let (p, q) = answer-nudge t email a e in (a, rw (e, decided), p, q)
        ])

  -- A user who answers nothing new has the turn already.
  answered-has_turn :
      (t : PrTurns) (email : Text) (a : Nudge)
      → early_answer t email true ≡ some a
      → (email == t.author || has_key email t.reviewers) ≡ true
      → is_real_author email ≡ true
      → has_turn t email ≡ true
  unfolding early_answer
  answered-has_turn t email a e allowed real = elim (Bool-cases (has_key email t.reviewers)) [
    | inl k ↦
        let (b, found) = has_key-lookup email t.reviewers k in
        ground (
          arith,
          found,
          text_beq_iff email t.author,
          text_beq_iff t.author email,
          some_without_turn_of_lookup email t.reviewers,
        )
    | inr k ↦ ground (
      arith,
      lookup_of_not-has_key email t.reviewers k,
      text_beq_iff email t.author,
      text_beq_iff t.author email,
    )
  ]

  -- If the turns can be read and written, then after a nudge of the author or of a tracked reviewer,
  -- who is no bot and whose address is in lower case, the list of those who have the turn can be read
  -- and has that user.
  pub set_reviewer_turn-contains :
      {env : Env} {t : PrTurns} (email : Text)
      → IsReady env t
      → IsLower email
      → (email == t.author || has_key email t.reviewers) ≡ true
      → is_real_author email ≡ true
      → (emails : List Text) × (c : TurnsFile) × ((set_reviewer_turn env email true >>= λ _.
              read_current_turn_emails env)
            (stored t)
          ≡ (ok emails, c))
        × (contains emails email ≡ true)
  set_reviewer_turn-contains {env} {t} email r l allowed real =
      rw (read-set_reviewer_turn email true r l) (elim (Option-cases (early_answer t email true)) [
        | inl e ↦ (
          current_turn_emails (with_turn t email),
          stored (with_turn t email),
          rw e,
          with_turn-contains t email r.normal.reviewers_normal.0,
        )
        | inr (a, e) ↦ (
          current_turn_emails t,
          stored t,
          rw e,
          contains-current_turn_emails t email r.normal.reviewers_normal.0
              ∙ answered-has_turn t email a e allowed real,
        )
      ])
