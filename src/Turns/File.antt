-- ===== src/Turns/File.antt =====
-- Reading and writing the turns file of one pull request.
use revchat.Base.{◌&&◌, Option, none, some, [], if◌then◌else◌, ◌==◌, is_empty}
use revchat.Base.Text.{text_eq, Unicode}
use revchat.DataFile
use revchat.DataFile.{Content, Disk, Loaded, value, gone, garbled}
use revchat.Json.{Fields}
use revchat.Result.{
  Result, ok, err, Act, ◌>>=◌, ◌>>◌, return, fail, snapshot_failed, snapshot_missing,
}
use revchat.Turns.Snapshot.{Lookups, reset_author, recreated}
use revchat.Turns.State.{Time, PrTurns, no_turns, normalize_email_addresses}

-- What one operation is given by its surroundings: the time, the answers to its accesses of the
-- file (to read it, to write it after a reset, to write it at the end), the pull request's
-- snapshot (`ReadPRSnapshot`), and the other parts that a reset asks.
pub record Env : Type 0 where
  pub now : Time
  pub reading : Disk
  pub resetting : Disk
  pub writing : Disk
  pub snapshot : Result (Option Fields)
  pub lookups : Lookups

abbrev pub TurnsFile : Type 0
TurnsFile = Content PrTurns

module _ ⦃u : Unicode⦄ where
  -- `writeTurns`
  unfoldable pub write_turns : Disk → PrTurns → Act TurnsFile (Unit {0})
  write_turns d t = DataFile.write_json no_turns d (normalize_email_addresses t)

  -- The state to write when only the author's address needs fixing.
  unfoldable pub repaired : Fields → Env → Option PrTurns → PrTurns
  repaired pr env none = recreated env.lookups pr
  repaired pr env (some t) =
      if is_empty t.reviewers && is_empty t.activity && is_empty t.approvers
      then recreated env.lookups pr
      else record t { author = reset_author env.lookups pr }

  unfoldable pub read_snapshot : Result (Option Fields) → Act TurnsFile Fields
  read_snapshot (err e) = fail snapshot_failed
  read_snapshot (ok none) = fail snapshot_missing
  read_snapshot (ok (some pr)) = return pr

  -- `resetTurns`. `writeTurns` normalizes the value that is returned.
  unfoldable pub reset_turns : Env → Option PrTurns → Act TurnsFile PrTurns
  unfolding read_snapshot
  reset_turns env t = do
    pr ← read_snapshot env.snapshot
    write_turns env.resetting (repaired pr env t)
    return (normalize_email_addresses (repaired pr env t))

  -- `readTurns` on what the decoder finds.
  unfoldable pub checked : Env → Loaded PrTurns → Act TurnsFile PrTurns
  checked env gone = reset_turns env none
  checked env garbled = reset_turns env none
  checked env (value t) =
      if t.author == [] then reset_turns env (some t) else return (normalize_email_addresses t)

  -- `readTurns`
  unfoldable pub read_turns : Env → Act TurnsFile PrTurns
  unfolding checked
  read_turns env = do l ← DataFile.load no_turns env.reading; checked env l
