-- ===== src/Turns/Roster.antt =====
-- Reviewers that are added to a pull request by `SetReviewerTurn`, and removed from it by
-- `RemoveReviewerFromTurns`.
use revchat.Base.{
  Bool, true, false, ◌&&◌, ◌||◌, none, some, List, [], ◌∷◌, if◌then◌else◌, ◌==◌, ◌≡◌, refl, ◌∙◌,
  arith, contains, beq_refl, Bool-cases, inl, inr,
}
use revchat.Base.Dict.{has_key, put, lookup-put, lookup-delete, has_key-delete, put-IsMap}
use revchat.Base.Text.{Text, text_eq, text_beq_iff, Unicode, IsLower}
use revchat.DataFile.{stored}
use revchat.Result.{ok, ◌>>=◌, ◌>>◌}
use revchat.Turns.Attention.{flag, Reports, contains-current_turn_emails}
use revchat.Turns.File.{Env}
use revchat.Turns.Healthy.{IsReady, write_turns-stored, read_turns-stored}
use revchat.Turns.Normal.{put-IsNormalMap, delete-IsNormalMap}
use revchat.Turns.Ops.{
  early_answer, with_turn, set_reviewer_turn, removed, remove_reviewer_from_turns,
}
use revchat.Turns.Queries.{
  is_real_author, some_without_turn, current_turn_emails, read_current_turn_emails,
}
use revchat.Turns.Reviewers.{read-set_reviewer_turn, set_reviewer_turn-stored}
use revchat.Turns.State.{Time, is_zero, PrTurns}
use revchat.Turns.Switch.{flag-put, is_empty-put}

some_without_turn-add :
    (k : Text) (m : List (Text × Bool))
    → has_key k m ≡ false
    → some_without_turn (put k true m) ≡ some_without_turn m
unfolding some_without_turn put has_key
some_without_turn-add k [] h = refl
some_without_turn-add k ((j, b) ∷ m) h = ground (arith, some_without_turn-add k m)

early_answer-new :
    (t : PrTurns) (email : Text)
    → (email == t.author) ≡ false
    → has_key email t.reviewers ≡ false
    → early_answer t email false ≡ none
unfolding early_answer
early_answer-new t email a k = rw (a, k)

module _ ⦃u : Unicode⦄ where
  -- A user who is neither the author nor tracked becomes a reviewer and has the turn at once. The
  -- turns of the other reviewers do not change, and the author has it afterwards only with a flag as
  -- a reviewer, or as a person while another reviewer has not the turn.
  pub set_reviewer_turn-new :
      {env : Env} {t : PrTurns} (email : Text)
      → IsReady env t
      → IsLower email
      → (email == t.author) ≡ false
      → has_key email t.reviewers ≡ false
      → Reports
          (set_reviewer_turn env email false >>= λ _. read_current_turn_emails env)
          (stored t)
          (λ who.
            if email == who
            then true
            else if t.author == who
            then flag who t.reviewers || (is_real_author t.author && some_without_turn t.reviewers)
            else contains (current_turn_emails t) who)
  unfolding with_turn
  set_reviewer_turn-new {env} {t} email r l other new = (
    current_turn_emails (with_turn t email),
    stored (with_turn t email),
    read-set_reviewer_turn email false r l ∙ rw (early_answer-new t email other new),
    λ who.
        contains-current_turn_emails (with_turn t email) who
          (put-IsMap email true t.reviewers r.normal.reviewers_normal.0)
        ∙ ground (
          arith,
          other,
          text_beq_iff email who,
          text_beq_iff email t.author,
          text_beq_iff t.author who,
          flag-put email who true t.reviewers,
          some_without_turn-add email t.reviewers new,
          is_empty-put email true t.reviewers,
          contains-current_turn_emails t who r.normal.reviewers_normal.0,
        ),
  )

  removed-IsReady :
      {env : Env} {t : PrTurns} (email : Text) (approved : Bool)
      → IsReady env t
      → IsLower email
      → IsReady env (removed t email approved env.now)
  unfolding removed
  removed-IsReady {env} {t} email approved r l = record {
    reads = r.reads;
    writes = r.writes;
    normal = record {
      author_lower = r.normal.author_lower;
      frozen_by_lower = r.normal.frozen_by_lower;
      reviewers_normal = delete-IsNormalMap email t.reviewers r.normal.reviewers_normal;
      activity_normal = put-IsNormalMap email env.now t.activity l r.normal.activity_normal;
      approvers_normal = ground (
        arith,
        r.normal.approvers_normal.0,
        r.normal.approvers_normal.1,
        put-IsNormalMap email env.now t.approvers l r.normal.approvers_normal,
      );
    };
    has_author = r.has_author;
  }

  remove-stored :
      {env : Env} {t : PrTurns} (email : Text) (approved : Bool)
      → IsReady env t
      → IsLower email
      → remove_reviewer_from_turns env email approved (stored t) ≡ (
        ok tt,
        stored (if has_key email t.reviewers then removed t email approved env.now else t),
      )
  unfolding remove_reviewer_from_turns
  remove-stored {env} {t} email approved r l =
      rw (read_turns-stored r) (elim (Bool-cases (has_key email t.reviewers)) [
        | inl k ↦ rw k (
            write_turns-stored (removed t email approved env.now) (stored t) r.writes
              (removed-IsReady email approved r l).normal)
        | inr k ↦ rw k
      ])

  not_tracked :
      (t : PrTurns) (email : Text) (approved : Bool) (now : Time)
      → has_key email
          (if has_key email t.reviewers then removed t email approved now else t).reviewers
        ≡ false
  unfolding removed
  not_tracked t email approved now = elim (Bool-cases (has_key email t.reviewers)) [
    | inl k ↦ rw k (has_key-delete email email t.reviewers ∙ rw (beq_refl email))
    | inr k ↦ rw k k
  ]

  after_remove-IsReady :
      {env : Env} {t : PrTurns} (email : Text) (approved : Bool)
      → IsReady env t
      → IsLower email
      → IsReady env (if has_key email t.reviewers then removed t email approved env.now else t)
  after_remove-IsReady {env} {t} email approved r l =
      elim (Bool-cases (has_key email t.reviewers)) [
        | inl k ↦ rw k (removed-IsReady email approved r l)
        | inr k ↦ rw k r
      ]

  -- `RemoveReviewerFromTurns` is idempotent: it always succeeds, and a second call, be it for an
  -- approval or not, leaves the file as the first one does.
  remove_reviewer_from_turns_idem :
      {env : Env} {t : PrTurns} (email : Text) (approved again : Bool)
      → IsReady env t
      → IsLower email
      → (remove_reviewer_from_turns env email approved
            >> remove_reviewer_from_turns env email again)
          (stored t)
        ≡ remove_reviewer_from_turns env email approved (stored t)
  remove_reviewer_from_turns_idem {env} {t} email approved again r l =
      rw (remove-stored email approved r l) (
        remove-stored email again (after_remove-IsReady email approved r l) l
        ∙ rw (not_tracked t email approved env.now))

  early_answer-removed :
      (t : PrTurns) (email : Text) (now : Time)
      → (email == t.author) ≡ false
      → is_zero now ≡ false
      → early_answer (removed t email true now) email true
        ≡ some (record { allowed = false; approved = true })
  unfolding early_answer removed
  early_answer-removed t email now other at = ground (
    arith,
    other,
    at,
    lookup-delete email email t.reviewers,
    lookup-put email email now t.approvers,
    beq_refl email,
  )

  -- A reviewer whose approval removes them from the turns can no longer be nudged, unless they are
  -- the author: the nudge is refused, with the answer that they have approved.
  pub approve-nudge :
      {env : Env} {t : PrTurns} (email : Text)
      → IsReady env t
      → IsLower email
      → (email == t.author) ≡ false
      → has_key email t.reviewers ≡ true
      → is_zero env.now ≡ false
      → ((remove_reviewer_from_turns env email true >> set_reviewer_turn env email true)
          (stored t)).0
        ≡ ok (record { allowed = false; approved = true })
  approve-nudge {env} {t} email r l other tracked now = rw (
    remove-stored email true r l,
    tracked,
    set_reviewer_turn-stored email true (removed-IsReady email true r l) l,
    early_answer-removed t email env.now other now,
  )
