-- ===== src/Turns/Calls.antt =====
-- pkg/data/turns.go: the operations as the rest of the program calls them, as local activities.
use revchat.Base.{Bool, false, ◌||◌, List, [], if◌then◌else◌, ◌==◌}
use revchat.Base.Text.{Text, codes, text_eq, Unicode, to_lower}
use revchat.Activity.{Temporal, execute_local_activity, logged}
use revchat.Result.{Act, return}
use revchat.Turns.File.{Env, TurnsFile}
use revchat.Turns.Ops.{
  Nudge, init_turns, set_reviewer_turn, switch_turn, remove_reviewer_from_turns,
  update_activity_time, freeze_turns, unfreeze_turns, delete_turns,
}
use revchat.Turns.Queries.{Frozen, read_current_turn_emails, get_activity_time, is_frozen}
use revchat.Turns.State.{Time}

-- `email == "" || email == "bot"`
unfoldable pub is_nobody : Text → Bool
is_nobody email = email == [] || email == codes "bot"

module _ ⦃u : Unicode⦄ where
  -- A call about a user, with what it returns for an address of nobody.
  abbrev pub about {ℓ} : {R : Type ℓ} → Text → R → (Text → R) → R
  about email nothing call =
      let lower = to_lower email in if is_nobody lower then nothing else call lower

  -- `InitTurns`, which runs outside of any activity.
  unfoldable pub call_init_turns : Env → Text → TurnsFile → Unit {0} × TurnsFile
  call_init_turns env author_email c = logged tt (init_turns env author_email c)

  -- `DeleteTurns`
  unfoldable pub call_delete_turns : Temporal Env → TurnsFile → Unit {0} × TurnsFile
  unfolding execute_local_activity
  call_delete_turns envs c = logged tt (execute_local_activity delete_turns envs c)

  -- `LoadCurrentTurnEmails`
  unfoldable pub load_current_turn_emails : Temporal Env → Act TurnsFile (List Text)
  unfolding execute_local_activity
  load_current_turn_emails envs = execute_local_activity read_current_turn_emails envs

  -- `SetReviewerTurn`
  unfoldable pub call_set_reviewer_turn : Temporal Env → Text → Bool → Act TurnsFile Nudge
  unfolding execute_local_activity to_lower is_nobody
  call_set_reviewer_turn envs email nudge =
      about email (return (record { allowed = false; approved = false }))
        (λ lower. execute_local_activity (λ env. set_reviewer_turn env lower nudge) envs)

  -- `SwitchTurn`
  unfoldable pub call_switch_turn : Temporal Env → Text → Bool → Act TurnsFile (Unit {0})
  unfolding execute_local_activity to_lower is_nobody
  call_switch_turn envs email force =
      about email (return tt)
        (λ lower. execute_local_activity (λ env. switch_turn env lower force) envs)

  -- `RemoveReviewerFromTurns`
  unfoldable pub call_remove_reviewer : Temporal Env → Text → Bool → Act TurnsFile (Unit {0})
  unfolding execute_local_activity to_lower is_nobody
  call_remove_reviewer envs email approved =
      about email (return tt) (λ lower.
        execute_local_activity (λ env. remove_reviewer_from_turns env lower approved) envs)

  -- `GetActivityTime`
  unfoldable pub call_get_activity_time : Temporal Env → Text → TurnsFile → Time × TurnsFile
  unfolding execute_local_activity to_lower is_nobody
  call_get_activity_time envs email c =
      about email (0, c)
        (λ lower. logged 0 (execute_local_activity (λ env. get_activity_time env lower) envs c))

  -- `UpdateActivityTime`
  unfoldable pub call_update_activity_time : Temporal Env → Text → TurnsFile → Unit {0} × TurnsFile
  unfolding execute_local_activity to_lower is_nobody
  call_update_activity_time envs email c =
      about email (tt, c)
        (λ lower. logged tt (execute_local_activity (λ env. update_activity_time env lower) envs c))

  -- `FreezeTurns`
  unfoldable pub call_freeze_turns : Temporal Env → Text → Act TurnsFile Bool
  unfolding execute_local_activity to_lower is_nobody
  call_freeze_turns envs email =
      about email (return false)
        (λ lower. execute_local_activity (λ env. freeze_turns env lower) envs)

  -- `UnfreezeTurns`
  unfoldable pub call_unfreeze_turns : Temporal Env → Act TurnsFile Bool
  unfolding execute_local_activity
  call_unfreeze_turns envs = execute_local_activity unfreeze_turns envs

  -- `IsFrozen`
  unfoldable pub call_is_frozen : Temporal Env → TurnsFile → Frozen × TurnsFile
  unfolding execute_local_activity
  call_is_frozen envs c =
      logged (record { at = 0; by = [] }) (execute_local_activity is_frozen envs c)
