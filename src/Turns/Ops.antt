-- ===== src/Turns/Ops.antt =====
-- The operations that change the turns of one pull request, as pkg/data calls them.
use revchat.Base.{
  Bool, true, false, not, ◌||◌, Option, none, some, List, [], ◌∷◌, if◌then◌else◌, ◌==◌, is_empty,
}
use revchat.Base.Dict.{lookup, has_key, put, delete}
use revchat.Base.Text.{Text, text_eq, Unicode}
use revchat.DataFile
use revchat.DataFile.{Disk}
use revchat.Result.{Act, ◌>>=◌, ◌>>◌, return}
use revchat.Turns.File.{Env, TurnsFile, write_turns, read_turns}
use revchat.Turns.State.{Time, is_zero, PrTurns, no_turns}

-- What `SetReviewerTurn` returns: whether it is done or allowed, and whether the user has approved.
pub record Nudge : Type 0 where
  pub allowed : Bool
  pub approved : Bool

-- `m[email]` on a map of times: the zero time if there is none.
unfoldable pub time_of : Text → List (Text × Time) → Time
time_of email m = elim (lookup email m) [ none ↦ 0 | some t ↦ t ]

-- The part of `SetReviewerTurn` between the read and the state change: `none` if there is a state
-- change to make, and otherwise what it returns.
unfoldable pub early_answer : PrTurns → Text → Bool → Option Nudge
unfolding time_of
early_answer t email false =
    if email == t.author || has_key email t.reviewers
    then some (record { allowed = true; approved = false })
    else none
early_answer t email true =
    if email == t.author
    then (if is_empty t.reviewers || has_key email t.reviewers
        then some (record { allowed = true; approved = false })
        else none)
    else elim (lookup email t.reviewers) [
      | none ↦
          some (record { allowed = false; approved = not (is_zero (time_of email t.approvers)) })
      | some their_turn ↦
          if their_turn then some (record { allowed = true; approved = false }) else none
    ]

unfoldable pub with_turn : PrTurns → Text → PrTurns
with_turn t email = record t { reviewers = put email true t.reviewers }

-- The loop of `SwitchTurn` over all the reviewers.
unfoldable pub all_true : List (Text × Bool) → List (Text × Bool)
all_true [] = []
all_true ((reviewer, _) ∷ m) = (reviewer, true) ∷ all_true m

-- The state change of `SwitchTurn` before the activity is recorded.
unfoldable pub switched : PrTurns → Text → Bool → List (Text × Bool)
unfolding all_true
switched t email force =
    if is_zero t.frozen_at || force
    then (if email == t.author
        then all_true (delete email t.reviewers)
        else if has_key email t.reviewers
        then put email false t.reviewers
        else t.reviewers)
    else t.reviewers

module _ ⦃u : Unicode⦄ where
  -- `InitTurns`
  unfoldable pub init_turns : Env → Text → Act TurnsFile (Unit {0})
  init_turns env author_email = write_turns env.writing (record no_turns { author = author_email })

  unfoldable pub set_reviewer : Env → PrTurns → Text → Option Nudge → Act TurnsFile Nudge
  set_reviewer env t email (some answer) = return answer
  set_reviewer env t email none = do
    write_turns env.writing (with_turn t email)
    return (record { allowed = true; approved = false })

  -- `internal.SetReviewerTurn`
  unfoldable pub set_reviewer_turn : Env → Text → Bool → Act TurnsFile Nudge
  unfolding set_reviewer
  set_reviewer_turn env email nudge = do
    t ← read_turns env
    set_reviewer env t email (early_answer t email nudge)

  -- `internal.SwitchTurn`
  unfoldable pub switch_turn : Env → Text → Bool → Act TurnsFile (Unit {0})
  switch_turn env email force = do
    t ← read_turns env
    write_turns env.writing
        (record t { reviewers = switched t email force; activity = put email env.now t.activity })

  -- The state change of `RemoveReviewerFromTurns`.
  unfoldable pub removed : PrTurns → Text → Bool → Time → PrTurns
  removed t email approved now = record t {
    reviewers = delete email t.reviewers;
    activity = put email now t.activity;
    approvers = if approved then put email now t.approvers else t.approvers;
  }

  -- `internal.RemoveReviewerFromTurns`
  unfoldable pub remove_reviewer_from_turns : Env → Text → Bool → Act TurnsFile (Unit {0})
  unfolding removed
  remove_reviewer_from_turns env email approved = do
    t ← read_turns env
    if has_key email t.reviewers
        then write_turns env.writing (removed t email approved env.now)
        else return tt

  -- `internal.UpdateActivityTime`
  unfoldable pub update_activity_time : Env → Text → Act TurnsFile (Unit {0})
  update_activity_time env email = do
    t ← read_turns env
    write_turns env.writing (record t { activity = put email env.now t.activity })

  -- `internal.FreezeTurns`
  unfoldable pub freeze_turns : Env → Text → Act TurnsFile Bool
  freeze_turns env email = do
    t ← read_turns env
    if is_zero t.frozen_at
        then (do
          write_turns env.writing (record t { frozen_at = env.now; frozen_by = email })
          return true)
        else return false

  -- `internal.UnfreezeTurns`
  unfoldable pub unfreeze_turns : Env → Act TurnsFile Bool
  unfreeze_turns env = do
    t ← read_turns env
    if is_zero t.frozen_at
        then return false
        else (do write_turns env.writing (record t { frozen_at = 0; frozen_by = [] }); return true)

  -- `DeleteTurns`
  unfoldable pub delete_turns : Env → Act TurnsFile (Unit {0})
  delete_turns env = DataFile.delete_file no_turns env.writing
