-- ===== src/Turns/Queries.antt =====
-- The operations that only report on the turns of one pull request.
use revchat.Base.{Bool, false, not, ◌&&◌, ◌||◌, List, [], ◌∷◌, ◌++◌, if◌then◌else◌, ◌==◌, is_empty}
use revchat.Base.Sorting.{sort_compact}
use revchat.Base.Text.{Text, text_eq, codes, Unicode}
use revchat.Result.{Act, ◌>>=◌, return}
use revchat.Turns.File.{Env, TurnsFile, read_turns}
use revchat.Turns.Ops.{time_of}
use revchat.Turns.State.{Time, PrTurns}

-- `maps.Keys`
unfoldable pub keys {ℓ} : {V : Type ℓ} → List (Text × V) → List Text
keys [] = []
keys ((k, _) ∷ m) = k ∷ keys m

-- `t.Author != "" && t.Author != "bot"`
unfoldable pub is_real_author : Text → Bool
is_real_author a = not (a == []) && not (a == codes "bot")

-- The loop of `ReadCurrentTurnEmails`: the emails, and whether some reviewer has no turn.
unfoldable pub turn_emails : List (Text × Bool) → List Text
turn_emails [] = []
turn_emails ((email, is_turn) ∷ m) = if is_turn then email ∷ turn_emails m else turn_emails m

unfoldable pub some_without_turn : List (Text × Bool) → Bool
some_without_turn [] = false
some_without_turn ((_, is_turn) ∷ m) = not is_turn || some_without_turn m

-- `ReadCurrentTurnEmails` on the state.
unfoldable pub current_turn_emails : PrTurns → List Text
unfolding is_real_author turn_emails some_without_turn
current_turn_emails t =
    if is_empty t.reviewers && is_real_author t.author
    then t.author ∷ []
    else sort_compact (
        if some_without_turn t.reviewers && is_real_author t.author
        then turn_emails t.reviewers ++ (t.author ∷ [])
        else turn_emails t.reviewers)

-- `readAllParticipantEmails` on the state.
unfoldable pub all_participant_emails : PrTurns → Bool → Bool → List Text
unfolding keys is_real_author
all_participant_emails t authors reviewers =
    let start = if authors && is_real_author t.author then t.author ∷ [] else [] in
    sort_compact (if reviewers then (start ++ keys t.reviewers) ++ keys t.approvers else start)

-- `Frozen`
pub record Frozen : Type 0 where
  pub at : Time
  pub by : Text

module _ ⦃u : Unicode⦄ where
  -- `ReadCurrentTurnEmails`
  unfoldable pub read_current_turn_emails : Env → Act TurnsFile (List Text)
  read_current_turn_emails env = do t ← read_turns env; return (current_turn_emails t)

  -- `readAllParticipantEmails`
  unfoldable pub read_all_participant_emails : Env → Bool → Bool → Act TurnsFile (List Text)
  read_all_participant_emails env authors reviewers = do
    t ← read_turns env
    return (all_participant_emails t authors reviewers)

  -- `internal.GetActivityTime`
  unfoldable pub get_activity_time : Env → Text → Act TurnsFile Time
  get_activity_time env email = do t ← read_turns env; return (time_of email t.activity)

  -- `internal.IsFrozen`
  unfoldable pub is_frozen : Env → Act TurnsFile Frozen
  is_frozen env = do t ← read_turns env; return (record { at = t.frozen_at; by = t.frozen_by })
