-- ===== src/Turns/Runs.antt =====
-- Any sequence of operations on one turns file. Each holds the file's mutex while it runs, so that
-- what the program's goroutines do to a file is such a sequence.
use revchat.Base.{
  Bool, true, false, Option, none, some, List, [], ◌∷◌, if◌then◌else◌, ◌≡◌, refl, ◌∙◌, arith,
}
use revchat.Base.Dict.{put, delete, has_key, IsMap, put-IsMap, delete-IsMap}
use revchat.Base.Text.{Text, text_eq, Unicode}
use revchat.DataFile
use revchat.DataFile.{Content, stored, RemoveOutcome}
use revchat.Result.{Result, ok, err, Act, continue, return}
use revchat.Turns.File.{Env, TurnsFile, write_turns, read_turns}
use revchat.Turns.Invariant.{
  IsFine, Leaves, Anything, continue-Leaves, write_turns-Leaves, read_turns-Leaves,
  data_path-Leaves,
}
use revchat.Turns.Normal.{IsNormal, HasMaps, IsNormal-HasMaps}
use revchat.Turns.Ops.{
  Nudge, early_answer, with_turn, all_true, switched, init_turns, set_reviewer, set_reviewer_turn,
  switch_turn, removed, remove_reviewer_from_turns, update_activity_time, freeze_turns,
  unfreeze_turns, delete_turns,
}
use revchat.Turns.Queries.{
  read_current_turn_emails, read_all_participant_emails, get_activity_time, is_frozen,
}
use revchat.Turns.State.{Time, is_zero, PrTurns, no_turns}

-- The operations, with their arguments.
pub data Call : Type 0 where
  init : Text → Call
  set_reviewer_turn_of : Text → Bool → Call
  switch_turn_of : Text → Bool → Call
  remove_reviewer : Text → Bool → Call
  update_activity : Text → Call
  freeze : Text → Call
  unfreeze delete_file read_current_turn read_frozen : Call
  read_participants : Bool → Bool → Call
  read_activity : Text → Call

pub all_true-has_key : (k : Text) (m : List (Text × Bool)) → has_key k (all_true m) ≡ has_key k m
unfolding all_true has_key
all_true-has_key k [] = refl
all_true-has_key k ((j, b) ∷ m) = rw (all_true-has_key k m)

all_true-IsMap : (m : List (Text × Bool)) → IsMap m → IsMap (all_true m)
unfolding all_true
all_true-IsMap [] h = tt
all_true-IsMap ((j, b) ∷ m) h = (all_true-has_key j m ∙ h.0, all_true-IsMap m h.1)

pub switched-IsMap :
    (t : PrTurns) (email : Text) (force : Bool) → IsMap t.reviewers → IsMap (switched t email force)
unfolding switched
switched-IsMap t email force h = ground (
  arith,
  all_true-IsMap (delete email t.reviewers) (delete-IsMap email t.reviewers h),
  put-IsMap email false t.reviewers h,
)

module _ ⦃u : Unicode⦄ where
  -- The file after an operation.
  unfoldable pub run : Env → Call → TurnsFile → TurnsFile
  run env (init author) c = (init_turns env author c).1
  run env (set_reviewer_turn_of email nudge) c = (set_reviewer_turn env email nudge c).1
  run env (switch_turn_of email force) c = (switch_turn env email force c).1
  run env (remove_reviewer email approved) c = (remove_reviewer_from_turns env email approved c).1
  run env (update_activity email) c = (update_activity_time env email c).1
  run env (freeze email) c = (freeze_turns env email c).1
  run env unfreeze c = (unfreeze_turns env c).1
  run env delete_file c = (delete_turns env c).1
  run env read_current_turn c = (read_current_turn_emails env c).1
  run env read_frozen c = (is_frozen env c).1
  run env (read_participants authors reviewers) c =
      (read_all_participant_emails env authors reviewers c).1
  run env (read_activity email) c = (get_activity_time env email c).1

  unfoldable pub run_all : List (Env × Call) → TurnsFile → TurnsFile
  run_all [] c = c
  run_all ((env, call) ∷ calls) c = run_all calls (run env call c)

  Leaves-IsFine : {A : Type 0} (P : A → Type 0) (r : Result A × TurnsFile) → Leaves P r → IsFine r.1
  Leaves-IsFine P (ok a, c) h = h.1
  Leaves-IsFine P (err e, c) h = h

  -- An operation that reads the turns, and then leaves a fine file.
  after_read-IsFine :
      {B : Type 0} (env : Env) (f : PrTurns → Act TurnsFile B) (c : TurnsFile)
      → IsFine c
      → ((t : PrTurns) (c' : TurnsFile) → HasMaps t → IsFine c' → Leaves Anything (f t c'))
      → IsFine (continue (read_turns env c) f).1
  after_read-IsFine env f c h k = Leaves-IsFine Anything _ (
      continue-Leaves IsNormal Anything (read_turns env c) f (read_turns-Leaves env c h)
        (λ t c' n h'. k t c' (IsNormal-HasMaps t n) h'))

  -- A write behind which a value is returned.
  then_return :
      {B : Type 0} (env : Env) (t : PrTurns) (c : TurnsFile) (b : B)
      → HasMaps t
      → IsFine c
      → Leaves Anything (continue (write_turns env.writing t c) (λ _. return b))
  then_return env t c b m h =
      continue-Leaves Anything Anything (write_turns env.writing t c) _
        (write_turns-Leaves env.writing t c m h) (λ _ c' _ h'. (tt, h'))

  set_reviewer-Leaves :
      (env : Env) (t : PrTurns) (email : Text) (o : Option Nudge) (c : TurnsFile)
      → HasMaps t
      → IsFine c
      → Leaves Anything (set_reviewer env t email o c)
  unfolding set_reviewer with_turn
  set_reviewer-Leaves env t email (some a) c m h = (tt, h)
  set_reviewer-Leaves env t email none c m h =
      then_return env (with_turn t email) c _
        (record {
          reviewers_map = put-IsMap email true t.reviewers m.reviewers_map;
          activity_map = m.activity_map;
          approvers_map = m.approvers_map;
        })
        h

  -- A branch on a computed test.
  either-Leaves :
      {B : Type 0} (b : Bool) (m n : Act TurnsFile B) (c : TurnsFile)
      → Leaves Anything (m c)
      → Leaves Anything (n c)
      → Leaves Anything ((if b then m else n) c)
  either-Leaves true m n c h k = h
  either-Leaves false m n c h k = k

  remove-Leaves :
      (o : RemoveOutcome) (c : TurnsFile) → IsFine c → Leaves Anything (DataFile.remove o c)
  unfolding DataFile.remove
  remove-Leaves RemoveOutcome.removed c h = (tt, tt)
  remove-Leaves RemoveOutcome.already_gone c h = (tt, tt)
  remove-Leaves RemoveOutcome.not_removed c h = h

  same_maps :
      (t : PrTurns) (at : Time) (by : Text)
      → HasMaps t
      → HasMaps (record t { frozen_at = at; frozen_by = by })
  same_maps t at by h = record {
    reviewers_map = h.reviewers_map;
    activity_map = h.activity_map;
    approvers_map = h.approvers_map;
  }

  recording-HasMaps :
      (t : PrTurns) (email : Text) (now : Time) (m : List (Text × Bool))
      → HasMaps t
      → IsMap m
      → HasMaps (record t { reviewers = m; activity = put email now t.activity })
  recording-HasMaps t email now m h n = record {
    reviewers_map = n;
    activity_map = put-IsMap email now t.activity h.activity_map;
    approvers_map = h.approvers_map;
  }

  removed-HasMaps :
      (t : PrTurns) (email : Text) (approved : Bool) (now : Time)
      → HasMaps t
      → HasMaps (removed t email approved now)
  unfolding removed
  removed-HasMaps t email approved now h = record {
    reviewers_map = delete-IsMap email t.reviewers h.reviewers_map;
    activity_map = put-IsMap email now t.activity h.activity_map;
    approvers_map =
        ground (arith, put-IsMap email now t.approvers h.approvers_map, h.approvers_map);
  }

  -- A file that is fine before an operation is fine after it, whatever the disk and the other parts
  -- answer to it.
  pub run-IsFine : (env : Env) (call : Call) (c : TurnsFile) → IsFine c → IsFine (run env call c)
  unfolding run init_turns set_reviewer_turn switch_turn remove_reviewer_from_turns
      update_activity_time freeze_turns unfreeze_turns delete_turns DataFile.delete_file
      read_current_turn_emails read_all_participant_emails get_activity_time is_frozen
  run-IsFine env (init author) c h = Leaves-IsFine Anything _ (
      write_turns-Leaves env.writing (record no_turns { author = author }) c
        (record { reviewers_map = tt; activity_map = tt; approvers_map = tt }) h)
  run-IsFine env (set_reviewer_turn_of email nudge) c h =
      after_read-IsFine env _ c h
        (λ t c' m h'. set_reviewer-Leaves env t email (early_answer t email nudge) c' m h')
  run-IsFine env (switch_turn_of email force) c h = after_read-IsFine env _ c h (λ t c' m h'.
      write_turns-Leaves env.writing _ c'
        (recording-HasMaps t email env.now _ m (switched-IsMap t email force m.reviewers_map)) h')
  run-IsFine env (remove_reviewer email approved) c h = after_read-IsFine env _ c h (λ t c' m h'.
      ground (
        arith,
        h',
        write_turns-Leaves env.writing (removed t email approved env.now) c'
            (removed-HasMaps t email approved env.now m) h',
      ))
  run-IsFine env (update_activity email) c h = after_read-IsFine env _ c h (λ t c' m h'.
      write_turns-Leaves env.writing _ c'
        (recording-HasMaps t email env.now t.reviewers m m.reviewers_map) h')
  run-IsFine env (freeze email) c h = after_read-IsFine env _ c h (λ t c' m h'.
      either-Leaves (is_zero t.frozen_at) _ (return false) c'
        (then_return env (record t { frozen_at = env.now; frozen_by = email }) c' true
          (same_maps t _ _ m) h')
        (tt, h'))
  run-IsFine env unfreeze c h = after_read-IsFine env _ c h (λ t c' m h'.
      either-Leaves (is_zero t.frozen_at) (return false) _ c' (tt, h')
        (then_return env (record t { frozen_at = 0; frozen_by = [] }) c' true (same_maps t _ _ m)
          h'))
  run-IsFine env delete_file c h = Leaves-IsFine Anything _ (
      continue-Leaves Anything Anything (DataFile.data_path no_turns env.writing c) _
        (data_path-Leaves env.writing c h)
        (λ _ c' _ h'. remove-Leaves env.writing.remove_outcome c' h'))
  run-IsFine env read_current_turn c h = after_read-IsFine env _ c h (λ t c' m h'. (tt, h'))
  run-IsFine env read_frozen c h = after_read-IsFine env _ c h (λ t c' m h'. (tt, h'))
  run-IsFine env (read_participants authors reviewers) c h =
      after_read-IsFine env _ c h (λ t c' m h'. (tt, h'))
  run-IsFine env (read_activity email) c h = after_read-IsFine env _ c h (λ t c' m h'. (tt, h'))

  -- A turns file that holds no state, or one whose addresses are all in lower case with no address
  -- twice in a map, is such a file again after any sequence of the operations, whatever the disk and
  -- the snapshot answer to each.
  pub run_all-IsFine :
      (calls : List (Env × Call)) (c : TurnsFile) → IsFine c → IsFine (run_all calls c)
  unfolding run_all
  run_all-IsFine [] c h = h
  run_all-IsFine ((env, call) ∷ calls) c h =
      run_all-IsFine calls (run env call c) (run-IsFine env call c h)
