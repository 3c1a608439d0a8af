-- ===== src/Turns/Tests.antt =====
-- Runs on the turns of one pull request, and the theorems at a concrete state.
mod Calls
use revchat.Base.{
  true, false, some, List, [], ◌∷◌, ◌≡◌, refl, contains, ◌==◌, if◌then◌else◌, ◌||◌, ◌&&◌, not,
  is_empty, Bool-cases, inl, inr,
}
use revchat.Base.Dict.{lookup, has_key, put, delete}
use revchat.Base.Sorting.{sort_compact}
use revchat.Base.Text.{Text, codes, text_eq, text_beq, plain, to_lower, lower_rune, IsLower}
use revchat.DataFile
use revchat.DataFile.{Content, Disk, stored, absent, opened, written}
use revchat.DataFile.Laws.{IsHealthy}
use revchat.Json.{Json, Items, Fields, get, as_list, as_text, items}
use revchat.Result.{ok, ◌>>=◌, ◌>>◌}
use revchat.Turns.File.{Env, TurnsFile, read_turns, write_turns}
use revchat.Turns.Freeze
use revchat.Turns.Healthy.{IsReady}
use revchat.Turns.Normal.{IsNormal}
use revchat.Turns.Attention.{flag, has_turn, Reports, contains-current_turn_emails}
use revchat.Turns.Invariant.{IsFine}
use revchat.Turns.Ops.{
  Nudge, time_of, switched, set_reviewer_turn, switch_turn, remove_reviewer_from_turns,
  freeze_turns, unfreeze_turns,
}
use revchat.Turns.Queries.{
  is_real_author, some_without_turn, current_turn_emails, read_current_turn_emails, is_frozen,
}
use revchat.Turns.Reset
use revchat.Turns.Reviewers
use revchat.Turns.Roster
use revchat.Turns.Runs
use revchat.Turns.Snapshot.{Lookups, list_of}
use revchat.Turns.State.{PrTurns, no_turns, is_zero, lower_keys, normalize_email_addresses}
use revchat.Turns.Switch

abbrev fine_disk : Disk
fine_disk = record {
  path_ok = true;
  fix_ok = true;
  open_outcome = opened;
  write_outcome = written;
  remove_outcome = DataFile.removed;
}

fine_disk-IsHealthy : IsHealthy fine_disk
fine_disk-IsHealthy = record {
  path_ok = refl;
  fixed = refl;
  can_open = refl;
  can_write = refl;
  can_remove = refl;
}

-- The directory knows the account "7" as rev1.
abbrev directory : Lookups
directory = record {
  bitbucket_id_to_email = λ id kind. if id == codes "7" then codes "rev1" else [];
  parse_time = λ s. some 5;
}

-- A participant as Bitbucket's payloads have it, who has approved.
abbrev participant : Json
participant = Json.obj (
    Fields.field (codes "user")
      (Json.obj (Fields.field (codes "account_id") (Json.str (codes "7")) Fields.end))
      (Fields.field (codes "approved") (Json.bool true) (
        Fields.field (codes "participated_on") (Json.str (codes "2025-01-01T00:00:00Z"))
          Fields.end)))

abbrev reviewer : Json
reviewer = Json.obj (Fields.field (codes "account_id") (Json.str (codes "7")) Fields.end)

abbrev snapshot : Fields
snapshot =
    Fields.field (codes "reviewers") (Json.arr (Items.cons reviewer Items.nil))
      (Fields.field (codes "participants") (Json.arr (Items.cons participant Items.nil)) Fields.end)

abbrev env : Env
env = record {
  now = 9;
  reading = fine_disk;
  resetting = fine_disk;
  writing = fine_disk;
  snapshot = ok (some snapshot);
  lookups = directory;
}

-- An author, a reviewer who has the turn, and one who has passed it.
abbrev state : PrTurns
state = record no_turns {
  author = codes "ann";
  reviewers = (codes "rev1", true) ∷ (codes "rev2", false) ∷ [];
}

state-IsNormal : IsNormal state
unfolding to_lower lower_rune has_key text_beq
state-IsNormal = record {
  author_lower = refl;
  frozen_by_lower = refl;
  reviewers_normal = ((refl, (refl, tt)), (refl, (refl, tt)));
  activity_normal = (tt, tt);
  approvers_normal = (tt, tt);
}

state-IsReady : IsReady env state
unfolding text_beq
state-IsReady = record {
  reads = fine_disk-IsHealthy;
  writes = fine_disk-IsHealthy;
  normal = state-IsNormal;
  has_author = refl;
}

abbrev frozen_state : PrTurns
frozen_state = record state { frozen_at = 3; frozen_by = codes "rev2" }

frozen_state-IsReady : IsReady env frozen_state
unfolding text_beq to_lower lower_rune
frozen_state-IsReady = record {
  reads = fine_disk-IsHealthy;
  writes = fine_disk-IsHealthy;
  normal = record {
    author_lower = refl;
    frozen_by_lower = refl;
    reviewers_normal = state-IsNormal.reviewers_normal;
    activity_normal = (tt, tt);
    approvers_normal = (tt, tt);
  };
  has_author = refl;
}

abbrev rev1 : Text
rev1 = codes "rev1"

rev1-IsLower : IsLower rev1
unfolding to_lower lower_rune
rev1-IsLower = refl

rev3-IsLower : IsLower (codes "rev3")
unfolding to_lower lower_rune
rev3-IsLower = refl

directory-IsLower : (id kind : Text) → IsLower (directory.bitbucket_id_to_email id kind)
unfolding to_lower lower_rune
directory-IsLower id kind = elim (Bool-cases (id == codes "7")) [ inl e ↦ rw e | inr e ↦ rw e ]

-- rev1 comments, and then it is the author's turn alone with the one who had passed it.
switch_run :
    ((switch_turn env rev1 false >> read_current_turn_emails env) (stored state)).0
    ≡ ok (codes "ann" ∷ [])
unfolding switch_turn read_current_turn_emails read_turns write_turns DataFile.load
    DataFile.write_json switched current_turn_emails sort_compact text_beq to_lower lower_rune
    has_key put lookup normalize_email_addresses lower_keys
switch_run = refl

switch_turn-reviewer_example :
    Reports (switch_turn env rev1 false >> read_current_turn_emails env) (stored state) (λ who.
      if rev1 == who
      then false
      else if codes "ann" == who
      then flag who state.reviewers || is_real_author (codes "ann")
      else contains (current_turn_emails state) who)
unfolding text_beq has_key
switch_turn-reviewer_example =
    Switch.switch_turn-reviewer {env = env} {t = state} rev1 false state-IsReady rev1-IsLower refl
      refl refl

switch_turn-author_example :
    Reports
      (switch_turn env (codes "ann") false >> read_current_turn_emails env)
      (stored state)
      (λ who.
        if codes "ann" == who
        then is_real_author (codes "ann") && is_empty (delete (codes "ann") state.reviewers)
        else has_key who state.reviewers)
switch_turn-author_example =
    Switch.switch_turn-author {env = env} {t = state} false state-IsReady refl

switch_turn-frozen_example :
    (switch_turn env rev1 false (stored frozen_state)
      ≡ (ok tt, stored (record frozen_state { activity = put rev1 9 [] })))
    × ((switch_turn env rev1 false >> read_current_turn_emails env) (stored frozen_state) ≡ (
      ok (current_turn_emails frozen_state),
      stored (record frozen_state { activity = put rev1 9 [] }),
    ))
switch_turn-frozen_example =
    Switch.switch_turn-frozen {env = env} {t = frozen_state} rev1 frozen_state-IsReady rev1-IsLower
      refl

run_all-IsFine_example :
    IsFine (
      Runs.run_all ((env, Runs.init (codes "Ann")) ∷ (env, Runs.freeze (codes "REV1")) ∷ []) absent)
run_all-IsFine_example =
    Runs.run_all-IsFine ((env, Runs.init (codes "Ann")) ∷ (env, Runs.freeze (codes "REV1")) ∷ [])
      absent tt

contains-current_turn_emails_example :
    contains (current_turn_emails state) rev1 ≡ has_turn state rev1
contains-current_turn_emails_example =
    contains-current_turn_emails state rev1 state-IsNormal.reviewers_normal.0

read_turns-reset_example :
    (t : PrTurns) × (read_turns env absent ≡ (ok t, stored t))
    × ((who : Text)
        → flag who t.reviewers ≡ Reset.names env.lookups (list_of snapshot (codes "reviewers")) who)
read_turns-reset_example =
    Reset.read_turns-reset env absent snapshot fine_disk-IsHealthy fine_disk-IsHealthy refl tt
      directory-IsLower

read_turns_loses_approvals_example :
    (t : PrTurns) × (read_turns env absent ≡ (ok t, stored t))
    × (t.approvers ≡ [])
    × (t.activity ≡ [])
unfolding list_of get as_list items as_text text_beq
read_turns_loses_approvals_example =
    Reset.read_turns_loses_approvals env absent snapshot fine_disk-IsHealthy fine_disk-IsHealthy
      refl tt (refl, tt)

set_reviewer_turn-nudge_example :
    (a : Nudge) × ((set_reviewer_turn env rev1 true (stored state)).0 ≡ ok a)
    × (a.allowed ≡ (rev1 == codes "ann" || has_key rev1 state.reviewers))
    × (a.approved ≡ (not a.allowed && not (is_zero (time_of rev1 state.approvers))))
set_reviewer_turn-nudge_example =
    Reviewers.set_reviewer_turn-nudge {env = env} {t = state} rev1 state-IsReady rev1-IsLower

set_reviewer_turn-contains_example :
    (emails : List Text) × (c : TurnsFile) × ((set_reviewer_turn env rev1 true >>= λ _.
    read_current_turn_emails env)
        (stored state)
      ≡ (ok emails, c))
    × (contains emails rev1 ≡ true)
unfolding text_beq has_key is_real_author
set_reviewer_turn-contains_example =
    Reviewers.set_reviewer_turn-contains {env = env} {t = state} rev1 state-IsReady rev1-IsLower
      refl refl

set_reviewer_turn-new_example :
    Reports
      (set_reviewer_turn env (codes "rev3") false >>= λ _. read_current_turn_emails env)
      (stored state)
      (λ who.
        if codes "rev3" == who
        then true
        else if codes "ann" == who
        then flag who state.reviewers
          || (is_real_author (codes "ann") && some_without_turn state.reviewers)
        else contains (current_turn_emails state) who)
unfolding text_beq has_key
set_reviewer_turn-new_example =
    Roster.set_reviewer_turn-new {env = env} {t = state} (codes "rev3") state-IsReady rev3-IsLower
      refl refl

approve-nudge_example :
    ((remove_reviewer_from_turns env rev1 true >> set_reviewer_turn env rev1 true) (stored state)).0
    ≡ ok (record { allowed = false; approved = true })
unfolding text_beq has_key
approve-nudge_example =
    Roster.approve-nudge {env = env} {t = state} rev1 state-IsReady rev1-IsLower refl refl refl

freeze_turns-unfreeze_turns_example :
    ((freeze_turns env rev1 (stored state)).0 ≡ ok true)
    × (unfreeze_turns env (freeze_turns env rev1 (stored state)).1 ≡ (ok true, stored state))
freeze_turns-unfreeze_turns_example =
    Freeze.freeze_turns-unfreeze_turns {env = env} {t = state} rev1 state-IsReady rev1-IsLower refl
      refl refl
