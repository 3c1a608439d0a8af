-- ===== src/Turns/Switch.antt =====
-- `SwitchTurn`, followed by `ReadCurrentTurnEmails`.
use revchat.Base.{
  Bool, true, false, ◌&&◌, ◌||◌, List, [], ◌∷◌, if◌then◌else◌, ◌==◌, ◌≡◌, refl, ap, ◌∙◌, arith,
  is_empty, contains, beq_refl,
}
use revchat.Base.Dict.{lookup, has_key, put, delete, lookup-put, lookup-delete, has_key-delete}
use revchat.Base.Text.{Text, text_eq, text_beq_iff, Unicode, IsLower}
use revchat.DataFile.{stored}
use revchat.Result.{ok, ◌>>◌}
use revchat.Turns.Attention.{flag, has_turn, Reports, contains-current_turn_emails}
use revchat.Turns.File.{Env}
use revchat.Turns.Healthy.{IsReady, write_turns-stored, read_turns-stored}
use revchat.Turns.Normal.{LowerKeys, IsNormalMap, put-IsNormalMap, delete-IsNormalMap}
use revchat.Turns.Ops.{all_true, switched, switch_turn}
use revchat.Turns.Queries.{
  is_real_author, some_without_turn, current_turn_emails, read_current_turn_emails,
}
use revchat.Turns.Runs.{switched-IsMap}
use revchat.Turns.State.{Time, is_zero, PrTurns}

pub flag-put :
    (k who : Text) (b : Bool) (m : List (Text × Bool))
    → flag who (put k b m) ≡ (if k == who then b else flag who m)
flag-put k who b m = ground (arith, lookup-put k who b m)

pub flag-delete :
    (k who : Text) (m : List (Text × Bool))
    → flag who (delete k m) ≡ (if k == who then false else flag who m)
flag-delete k who m = ground (arith, lookup-delete k who m)

flag-all_true : (who : Text) (m : List (Text × Bool)) → flag who (all_true m) ≡ has_key who m
unfolding all_true lookup has_key
flag-all_true who [] = refl
flag-all_true who ((k, b) ∷ m) = ground (arith, flag-all_true who m)

some_without_turn-put :
    (k : Text) (m : List (Text × Bool)) → some_without_turn (put k false m) ≡ true
unfolding some_without_turn put
some_without_turn-put k [] = refl
some_without_turn-put k ((j, b) ∷ m) = ground (arith, some_without_turn-put k m)

some_without_turn-all_true : (m : List (Text × Bool)) → some_without_turn (all_true m) ≡ false
unfolding some_without_turn all_true
some_without_turn-all_true [] = refl
some_without_turn-all_true ((k, b) ∷ m) = some_without_turn-all_true m

pub is_empty-put : (k : Text) (b : Bool) (m : List (Text × Bool)) → is_empty (put k b m) ≡ false
unfolding put
is_empty-put k b [] = refl
is_empty-put k b ((j, c) ∷ m) = ground arith

is_empty-all_true : (m : List (Text × Bool)) → is_empty (all_true m) ≡ is_empty m
unfolding all_true
is_empty-all_true [] = refl
is_empty-all_true ((k, b) ∷ m) = refl

module _ ⦃u : Unicode⦄ where
  all_true-LowerKeys : (m : List (Text × Bool)) → LowerKeys m → LowerKeys (all_true m)
  unfolding all_true
  all_true-LowerKeys [] h = tt
  all_true-LowerKeys ((k, b) ∷ m) h = (h.0, all_true-LowerKeys m h.1)

  switched-LowerKeys :
      (t : PrTurns) (email : Text) (force : Bool)
      → IsLower email
      → IsNormalMap t.reviewers
      → LowerKeys (switched t email force)
  unfolding switched
  switched-LowerKeys t email force l n = ground (
    arith,
    n.1,
    (put-IsNormalMap email false t.reviewers l n).1,
    all_true-LowerKeys (delete email t.reviewers) (delete-IsNormalMap email t.reviewers n).1,
  )

  -- The state that `SwitchTurn` writes.
  abbrev pub after_switch : Env → PrTurns → Text → Bool → PrTurns
  after_switch env t email force = record t {
    reviewers = switched t email force;
    activity = put email env.now t.activity;
  }

  after_switch-IsReady :
      {env : Env} {t : PrTurns} (email : Text) (force : Bool)
      → IsReady env t
      → IsLower email
      → IsReady env (after_switch env t email force)
  after_switch-IsReady {env} {t} email force r l = record {
    reads = r.reads;
    writes = r.writes;
    normal = record {
      author_lower = r.normal.author_lower;
      frozen_by_lower = r.normal.frozen_by_lower;
      reviewers_normal = (
        switched-IsMap t email force r.normal.reviewers_normal.0,
        switched-LowerKeys t email force l r.normal.reviewers_normal,
      );
      activity_normal = put-IsNormalMap email env.now t.activity l r.normal.activity_normal;
      approvers_normal = r.normal.approvers_normal;
    };
    has_author = r.has_author;
  }

  pub switch_turn-stored :
      {env : Env} {t : PrTurns} (email : Text) (force : Bool)
      → IsReady env t
      → IsLower email
      → switch_turn env email force (stored t) ≡ (ok tt, stored (after_switch env t email force))
  unfolding switch_turn
  switch_turn-stored {env} {t} email force r l = rw (read_turns-stored r) (
      write_turns-stored (after_switch env t email force) (stored t) r.writes
        (after_switch-IsReady email force r l).normal)

  pub read_current_turn_emails-stored :
      {env : Env} {t : PrTurns}
      → IsReady env t
      → read_current_turn_emails env (stored t) ≡ (ok (current_turn_emails t), stored t)
  unfolding read_current_turn_emails
  read_current_turn_emails-stored r = rw (read_turns-stored r)

  -- What is read after a switch.
  read-switch_turn :
      {env : Env} {t : PrTurns} (email : Text) (force : Bool)
      → IsReady env t
      → IsLower email
      → (switch_turn env email force >> read_current_turn_emails env) (stored t) ≡ (
        ok (current_turn_emails (after_switch env t email force)),
        stored (after_switch env t email force),
      )
  read-switch_turn email force r l =
      rw (switch_turn-stored email force r l)
        (read_current_turn_emails-stored (after_switch-IsReady email force r l))

  contains-after_switch :
      {env : Env} {t : PrTurns} (email : Text) (force : Bool) (who : Text)
      → IsReady env t
      → contains (current_turn_emails (after_switch env t email force)) who
        ≡ has_turn (after_switch env t email force) who
  contains-after_switch {env} {t} email force who r =
      contains-current_turn_emails (after_switch env t email force) who
        (switched-IsMap t email force r.normal.reviewers_normal.0)

  -- A tracked reviewer who is not the author hands over, while turns are not frozen or by force: the
  -- reviewer no longer has the turn, the author has it if the author is a person or had a flag as a
  -- reviewer, and no other user gains or loses it.
  pub switch_turn-reviewer :
      {env : Env} {t : PrTurns} (email : Text) (force : Bool)
      → IsReady env t
      → IsLower email
      → (email == t.author) ≡ false
      → has_key email t.reviewers ≡ true
      → (is_zero t.frozen_at || force) ≡ true
      → Reports (switch_turn env email force >> read_current_turn_emails env) (stored t) (λ who.
        if email == who
        then false
        else if t.author == who
        then flag who t.reviewers || is_real_author t.author
        else contains (current_turn_emails t) who)
  unfolding switched
  switch_turn-reviewer {env} {t} email force r l other tracked free = (
    current_turn_emails (after_switch env t email force),
    stored (after_switch env t email force),
    read-switch_turn email force r l,
    λ who.
        contains-after_switch email force who r
        ∙ ground (
          arith,
          free,
          other,
          tracked,
          text_beq_iff email who,
          text_beq_iff email t.author,
          text_beq_iff t.author who,
          flag-put email who false t.reviewers,
          some_without_turn-put email t.reviewers,
          is_empty-put email false t.reviewers,
          contains-current_turn_emails t who r.normal.reviewers_normal.0,
        ),
  )

  -- The author hands over, while turns are not frozen or by force: every other tracked reviewer has
  -- the turn, whatever they had before, and the author has it only if there is no other reviewer
  -- and the author is a person.
  pub switch_turn-author :
      {env : Env} {t : PrTurns} (force : Bool)
      → IsReady env t
      → (is_zero t.frozen_at || force) ≡ true
      → Reports (switch_turn env t.author force >> read_current_turn_emails env) (stored t) (λ who.
        if t.author == who
        then is_real_author t.author && is_empty (delete t.author t.reviewers)
        else has_key who t.reviewers)
  unfolding switched
  switch_turn-author {env} {t} force r free = (
    current_turn_emails (after_switch env t t.author force),
    stored (after_switch env t t.author force),
    read-switch_turn t.author force r r.normal.author_lower,
    λ who.
        contains-after_switch t.author force who r
        ∙ ground (
          arith,
          free,
          beq_refl t.author,
          flag-all_true who (delete t.author t.reviewers),
          has_key-delete t.author who t.reviewers,
          some_without_turn-all_true (delete t.author t.reviewers),
          is_empty-all_true (delete t.author t.reviewers),
        ),
  )

  switched-frozen :
      (t : PrTurns) (email : Text)
      → is_zero t.frozen_at ≡ false
      → switched t email false ≡ t.reviewers
  unfolding switched
  switched-frozen t email frozen = rw frozen

  same_turns :
      (t : PrTurns) (m : List (Text × Time))
      → current_turn_emails (record t { activity = m }) ≡ current_turn_emails t
  unfolding current_turn_emails
  same_turns t m = refl

  -- While turns are frozen, a switch that is not forced succeeds and writes only the time of the
  -- user's activity, and the list of those who have the turn is the same afterwards.
  pub switch_turn-frozen :
      {env : Env} {t : PrTurns} (email : Text)
      → IsReady env t
      → IsLower email
      → is_zero t.frozen_at ≡ false
      → (switch_turn env email false (stored t)
          ≡ (ok tt, stored (record t { activity = put email env.now t.activity })))
        × ((switch_turn env email false >> read_current_turn_emails env) (stored t) ≡ (
          ok (current_turn_emails t),
          stored (record t { activity = put email env.now t.activity }),
        ))
  switch_turn-frozen {env} {t} email r l frozen =
      let same =
        ap (λ m. record t { reviewers = m; activity = put email env.now t.activity })
          (switched-frozen t email frozen) in
      (
        switch_turn-stored email false r l ∙ ap (λ s. (ok tt, stored s)) same,
        read-switch_turn email false r l
            ∙ ap (λ s. (ok (current_turn_emails s), stored s)) same
            ∙ ap (λ l. (ok l, stored (record t { activity = put email env.now t.activity })))
                (same_turns t (put email env.now t.activity)),
      )
