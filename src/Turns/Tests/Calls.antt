-- ===== src/Turns/Tests/Calls.antt =====
-- The calls of the operations, and the walk over the files, at concrete states.
use revchat.Base.{
  nat_eq, true, false, List, [], ◌∷◌, ◌++◌, ◌≡◌, refl, arith, if◌then◌else◌, ◌==◌, ◌||◌, ◌&&◌,
  contains, is_empty,
}
use revchat.Base.Text.{Text, codes, text_eq, text_beq, plain, to_lower}
use revchat.DataFile
use revchat.DataFile.{Content, stored, absent, empty, undecodable}
use revchat.Files.Parse.{values_of}
use revchat.Result.{ok}
use revchat.Turns.Calls.{is_nobody, call_delete_turns}
use revchat.Activity.{Temporal}
use revchat.Activity.Retry.{retrying}
use revchat.Turns.File.{Env, TurnsFile}
use revchat.Turns.Listed
use revchat.Turns.Ops.{delete_turns}
use revchat.Turns.Caseless
use revchat.Turns.Caseless.{UserCall, switch, perform, map_email, email_of}
use revchat.Turns.Scan.{
  UserPrs, Visit, turns_file_suffix, Selection, read_prs_per_slack_user, list_prs_per_slack_user,
}
use revchat.Turns.Tests.{fine_disk, env, state, rev1}

-- The disk refuses three times, and then answers.
abbrev busy_env : Env
busy_env = record env { writing = record fine_disk { remove_outcome = DataFile.not_removed } }

abbrev late_envs : Temporal Env
late_envs = retrying (λ i. if nat_eq i 3 then env else busy_env)

deleted_at_last : (call_delete_turns late_envs (stored state)).1 ≡ absent
unfolding call_delete_turns delete_turns DataFile.delete_file
deleted_at_last = refl

perform-to_lower_example :
    (perform late_envs (switch (to_lower (codes "Rev1")) true) (stored state)
      ≡ perform late_envs (switch (codes "Rev1") true) (stored state))
    × (is_nobody (to_lower (codes "Rev1")) ≡ true
        → perform late_envs (switch (codes "Rev1") true) (stored state) ≡ stored state)
perform-to_lower_example =
    Caseless.perform-to_lower late_envs (switch (codes "Rev1") true) (stored state)

-- Slack knows the first reviewer only.
abbrev slack_ids : Text → Text
slack_ids email = if email == rev1 then codes "U1" else []

abbrev visit : Text → TurnsFile → Env → Visit
visit id file reading = record {
  path = codes "pr/" ++ id ++ turns_file_suffix;
  name = id ++ turns_file_suffix;
  is_dir = false;
  unreadable = false;
  file = file;
  reading = reading;
  removing = λ email. env;
  email_to_slack_id = slack_ids;
}

-- A directory, a snapshot, and two turns files of which one cannot be read.
abbrev visits : List Visit
visits =
    (record (visit [] absent env) { name = codes "pr"; is_dir = true })
    ∷ (record (visit (codes "1") absent env) { name = codes "1_snapshot.json" })
    ∷ visit (codes "1") (stored state) env
    ∷ visit (codes "2") undecodable busy_env
    ∷ []

abbrev turn_only : Selection
turn_only = record { current_turn = true; authors = false; reviewers = false }

read_prs_per_slack_user-listed_example :
    (users : UserPrs) × ((read_prs_per_slack_user true turn_only [] visits).0 ≡ ok users)
    × ((id url : Text)
        → contains (values_of id users) url ≡ (
            (is_empty {A = Text} [] || contains [] id) && Listed.is_listed turn_only visits id url))
read_prs_per_slack_user-listed_example =
    Listed.read_prs_per_slack_user-listed turn_only [] visits (refl, (refl, (refl, (refl, tt))))

one_listed : Listed.is_listed turn_only visits (codes "U1") (codes "https://pr/1") ≡ true
unfolding Listed.is_listed text_beq revchat.Turns.Scan.is_turns_file revchat.Turns.Scan.pr_url_of
    Listed.has_user revchat.Turns.Scan.selected_emails revchat.Turns.File.read_turns DataFile.load
    revchat.Turns.Queries.current_turn_emails revchat.Turns.State.normalize_email_addresses
    revchat.Turns.State.lower_keys to_lower revchat.Base.Text.lower_rune
    revchat.Base.Sorting.sort_compact is_nobody
one_listed = refl

users_and_alerts :
    list_prs_per_slack_user (
      ok (
        (codes "U1", codes "pr/1" ∷ [])
        ∷ (codes "ann email not found", codes "pr/1" ∷ codes "pr/2" ∷ [])
        ∷ []))
    ≡ (
      (codes "U1", codes "pr/1" ∷ []) ∷ [],
      (codes "Email" ∷ codes "ann" ∷ codes "PR 1" ∷ codes "pr/1" ∷ codes "PR 2" ∷ codes "pr/2" ∷ [])
          ∷ [],
    )
unfolding list_prs_per_slack_user text_beq
users_and_alerts = refl
