-- ===== src/Turns/Scan.antt =====
-- `ReadPRsPerSlackUser` of pkg/data/internal/turns.go, and `ListPRsPerSlackUser` of
-- pkg/data/turns.go: the walk over the turns files of all pull requests.
use revchat.Base.{
  ℕ, ◌+◌, ◌-◌, Bool, false, not, ◌||◌, ◌&&◌, List, [], ◌∷◌, ◌++◌, if◌then◌else◌, ◌==◌, is_empty,
  length, take,
}
use revchat.Base.Dict.{lookup, has_key, put, delete}
use revchat.Base.Sorting.{sort}
use revchat.Base.Text.{Text, codes, text_eq, Unicode}
use revchat.Channel.Create.{decimal}
use revchat.Files.Lines.{has_suffix}
use revchat.Files.Parse.{values_of, append_to}
use revchat.Result.{Result, ok, err, path_failed, open_failed}
use revchat.Reports.Time.{trim_suffix}
use revchat.Turns.Calls.{is_nobody}
use revchat.Turns.File.{Env, TurnsFile}
use revchat.Turns.Ops.{remove_reviewer_from_turns}
use revchat.Turns.Queries.{keys, read_current_turn_emails, read_all_participant_emails}

-- `SlackIDNotFound`
abbrev pub slack_id_not_found : Text
slack_id_not_found = codes " email not found"

-- A map from Slack IDs to the URLs of pull requests.
abbrev pub UserPrs : Type 0
UserPrs = List (Text × List Text)

-- `TurnsFileSuffix`
abbrev pub turns_file_suffix : Text
turns_file_suffix = codes "_turns.json"

-- An entry of the walk over the directory of the data files: its path and its name, whether it is a
-- directory, and whether the walk cannot read it. For a turns file, what it holds, the answers to the
-- accesses of it, to read it and to remove a user from it, and those of `emailToSlackID`.
pub record Visit : Type 0 where
  pub path : Text
  pub name : Text
  pub is_dir : Bool
  pub unreadable : Bool
  pub file : TurnsFile
  pub reading : Env
  pub removing : Text → Env
  pub email_to_slack_id : Text → Text

-- The test that skips entries.
unfoldable pub is_turns_file : Visit → Bool
unfolding has_suffix
is_turns_file v = not v.is_dir && has_suffix v.name turns_file_suffix

-- The URL of the pull request of a turns file.
unfoldable pub pr_url_of : Visit → Text
unfolding trim_suffix
pr_url_of v = codes "https://" ++ trim_suffix v.path turns_file_suffix

-- The emails to look for: those whose turn it is, or the authors and the reviewers.
pub record Selection : Type 0 where
  pub current_turn : Bool
  pub authors : Bool
  pub reviewers : Bool

-- The loop over the filter.
unfoldable pub filtered : UserPrs → List Text → UserPrs → UserPrs
unfolding lookup put has_key has_suffix
filtered users [] kept = kept
filtered users (id ∷ rest) kept =
    let more = filtered users rest (put id (values_of id users) kept) in
    let same = filtered users rest kept in
    if has_key id users || has_suffix id slack_id_not_found then more else same

module _ ⦃u : Unicode⦄ where
  unfoldable pub selected_emails : Selection → Visit → Result (List Text) × TurnsFile
  unfolding read_current_turn_emails read_all_participant_emails
  selected_emails s v =
      if s.current_turn
      then read_current_turn_emails v.reading v.file
      else read_all_participant_emails v.reading s.authors s.reviewers v.file

  -- The key of an address: its Slack ID, or the address with a mark.
  abbrev pub user_key : Visit → Text → Text
  user_key v email =
      let id = v.email_to_slack_id email in if id == [] then email ++ slack_id_not_found else id

  -- The loop over the addresses of one pull request.
  unfoldable pub add_emails : Visit → List Text → UserPrs → TurnsFile → UserPrs × TurnsFile
  unfolding is_nobody lookup put pr_url_of remove_reviewer_from_turns
  add_emails v [] users c = (users, c)
  add_emails v (email ∷ rest) users c =
      let skipped = add_emails v rest users c in
      let found = append_to (user_key v email) (pr_url_of v ∷ []) users in
      let removed =
        add_emails v rest found (remove_reviewer_from_turns (v.removing email) email false c).1 in
      let kept = add_emails v rest found c in
      if is_nobody email then skipped else if v.email_to_slack_id email == [] then removed else kept

  -- The function that is called for each file: a file with an error is skipped.
  abbrev pub visited : Visit → UserPrs → Result (List Text) × TurnsFile → UserPrs × TurnsFile
  visited v users (ok emails, c) = add_emails v emails users c
  visited v users (err e, c) = (users, c)

  unfoldable pub visit_file : Selection → Visit → UserPrs → UserPrs × TurnsFile
  unfolding selected_emails add_emails
  visit_file s v users = visited v users (selected_emails s v)

  abbrev pub files_of : List Visit → List TurnsFile
  files_of [] = []
  files_of (v ∷ rest) = v.file ∷ files_of rest

  -- The walk: the users, and the files that it leaves. It ends with an error at an entry that it
  -- cannot read.
  unfoldable pub walk : Selection → List Visit → UserPrs → Result UserPrs × List TurnsFile
  unfolding visit_file is_turns_file
  walk s [] users = (ok users, [])
  walk s (v ∷ rest) users =
      let here = visit_file s v users in
      let next = walk s rest here.0 in
      let skipped = walk s rest users in
      if v.unreadable
      then (err open_failed, files_of (v ∷ rest))
      else if is_turns_file v
      then (next.0, here.1 ∷ next.1)
      else (skipped.0, v.file ∷ skipped.1)

  abbrev pub with_filter : List Text → Result UserPrs → Result UserPrs
  with_filter filter (err e) = err e
  with_filter filter (ok users) = ok (if is_empty filter then users else filtered users filter [])

  -- `ReadPRsPerSlackUser`, and whether its directory is there.
  unfoldable pub read_prs_per_slack_user :
      Bool → Selection → List Text → List Visit → Result UserPrs × List TurnsFile
  unfolding walk filtered
  read_prs_per_slack_user dir_ok s filter visits =
      let found = walk s visits [] in
      if dir_ok then (with_filter filter found.0, found.1) else (err path_failed, files_of visits)

-- `strings.TrimSuffix(user, SlackIDNotFound)`
unfoldable pub trim_not_found : Text → Text
unfolding has_suffix
trim_not_found user =
    if has_suffix user slack_id_not_found
    then take (length user - length slack_id_not_found) user
    else user

-- The details of the pull requests of an alert, from the `i`-th on.
unfoldable pub pr_details : ℕ → List Text → List Text
unfolding decimal
pr_details i [] = []
pr_details i (pr_url ∷ rest) = (codes "PR " ++ decimal i []) ∷ pr_url ∷ pr_details (i + 1) rest

-- The loop of `ListPRsPerSlackUser` over the sorted keys.
unfoldable pub split_alerts : List Text → UserPrs → List (List Text) → UserPrs × List (List Text)
unfolding has_suffix trim_not_found pr_details lookup delete
split_alerts [] users alerts = (users, alerts)
split_alerts (user ∷ rest) users alerts =
    let same = split_alerts rest users alerts in
    let details = codes "Email" ∷ trim_not_found user ∷ pr_details 1 (values_of user users) in
    let alerted = split_alerts rest (delete user users) (alerts ++ details ∷ []) in
    if not (has_suffix user slack_id_not_found) then same else alerted

-- `ListPRsPerSlackUser`, given what the activity returns.
unfoldable pub list_prs_per_slack_user : Result UserPrs → UserPrs × List (List Text)
unfolding split_alerts sort keys
list_prs_per_slack_user (err e) = ([], [])
list_prs_per_slack_user (ok users) = split_alerts (sort (keys users)) users []
