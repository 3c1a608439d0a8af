-- ===== src/Bitbucket/Updated.antt =====
-- `PullRequestUpdatedWorkflow` of pkg/bitbucket/workflows/pullrequest.go, one part after another.
use revchat.Base.{
  ℕ, zero, suc, ◌-◌, true, not, ◌&&◌, List, [], ◌∷◌, ◌++◌, Option, none, some, if◌then◌else◌, ◌==◌,
  is_empty, length, take, ltb, leb, nat_eq,
}
use revchat.Base.Text.{Text, codes, text_eq, text_beq}
use revchat.Bitbucket.Effects.{
  Effect, message, alert, warning, set_reviewer_turn_call, switch_turn_call, update_activity_call,
  invite, kick, describe, rename, update_bookmarks, store_snapshot, store_diffstat_call, init_data,
  Answers,
}
use revchat.Handlers.{Outcome, nothing, ◌then_do◌, call, checked_call}
use revchat.Bitbucket.Payload.{Commit, PullRequest, Event}
use revchat.Bitbucket.Reviewers.{
  channel_members, reviewers_diff, reviewer_mentions, bitbucket_to_slack_ids,
}
use revchat.Bitbucket.Snapshot.{switch_pr_snapshot}
use revchat.Channel.Create.{decimal}
use revchat.Channel.Name.{trim_space}
use revchat.Files.Lines.{cut_before}
use revchat.Result.{Result, ok, err}

-- Transitions between draft and ready-to-review modes.
unfoldable pub draft_part : Answers → Event → PullRequest → PullRequest → Outcome Effect
unfolding channel_members
draft_part q event old pr =
    if not old.draft && pr.draft
    then (call (message (codes "%s marked this PR as a draft. :construction:"))
        then_do checked_call q.fails (set_reviewer_turn_call (q.email_of pr.author) true))
    else if old.draft && not pr.draft
    then (call (message (codes "%s marked this PR as ready for review. :eyes:"))
        then_do checked_call q.fails (switch_turn_call (q.email_of event.actor) true)
        then_do checked_call q.fails (invite (channel_members q.slack_id pr)))
    else nothing

unfoldable pub title_part : Answers → PullRequest → PullRequest → Outcome Effect
unfolding text_beq
title_part q old pr =
    if not (old.title == pr.title)
    then (call (message (codes ":pencil2: %s edited the PR title: " ++ q.linkified pr.title))
        then_do call (describe pr.title)
        then_do checked_call q.fails (rename pr.title))
    else nothing

unfoldable pub description_part : Answers → Event → PullRequest → PullRequest → Outcome Effect
unfolding text_beq trim_space
description_part q event old pr =
    let text = trim_space pr.description in
    let msg =
      if is_empty text
      then codes ":pencil2: %s deleted the PR description."
      else codes ":pencil2: %s edited the PR description:" ++ (10 ∷ 10 ∷ q.to_slack text) in
    if not (old.description == pr.description)
    then (call (message msg) then_do call (update_activity_call (q.email_of event.actor)))
    else nothing

unfoldable pub reviewers_part : Answers → PullRequest → PullRequest → Outcome Effect
unfolding reviewers_diff reviewer_mentions bitbucket_to_slack_ids
reviewers_part q old pr =
    let diff = reviewers_diff old pr in
    let invited =
      if pr.draft
      then nothing
      else checked_call q.fails (invite (bitbucket_to_slack_ids q.slack_id diff.0)) in
    if is_empty diff.0 && is_empty diff.1
    then nothing
    else (call (message (reviewer_mentions q.slack_ref diff.0 diff.1))
        then_do invited
        then_do checked_call q.fails (kick (bitbucket_to_slack_ids q.slack_id diff.1)))

-- A link to a branch in the message on a retargeted pull request.
abbrev pub branch_link : Text → Text → Text
branch_link repo_url branch =
    codes "<" ++ repo_url ++ codes "/branch/" ++ branch ++ codes "|`" ++ branch ++ codes "`>"

unfoldable pub branch_part : Answers → Event → PullRequest → PullRequest → Outcome Effect
unfolding text_beq
branch_part q event old pr =
    let msg =
      codes "%s changed the target branch from "
      ++ branch_link event.repository_url old.destination_branch
      ++ codes " to "
      ++ branch_link event.repository_url pr.destination_branch
      ++ codes "." in
    if not (old.destination_branch == pr.destination_branch)
    then (call (message msg) then_do call (update_activity_call (q.email_of event.actor)))
    else nothing

-- `slices.Reverse`, and `commits[n:]`: none for the panic of a slice that is out of range.
unfoldable pub reversed_commits : List Commit → List Commit
reversed_commits [] = []
reversed_commits (c ∷ rest) = reversed_commits rest ++ c ∷ []

unfoldable pub slice_from {ℓ} : {A : Type ℓ} → ℕ → List A → Option (List A)
slice_from zero l = some l
slice_from (suc n) [] = none
slice_from (suc n) (x ∷ l) = slice_from n l

-- The number of commits that were announced before.
unfoldable pub previous_count : ℕ → ℕ → ℕ
previous_count prev count = if leb count prev then count - 1 else prev

-- The commits to announce.
unfoldable pub new_commits : List Commit → ℕ → ℕ → Option (List Commit)
unfolding reversed_commits previous_count slice_from
new_commits commits prev count = slice_from (previous_count prev count) (reversed_commits commits)

-- `c.Hash[:7]`
unfoldable pub short_hash : Text → Option Text
short_hash hash = if leb 7 (length hash) then some (take 7 hash) else none

-- The lines on the commits: none for a panic.
unfoldable pub commit_lines : List Commit → Option Text
unfolding short_hash cut_before
commit_lines [] = some []
commit_lines (c ∷ rest) =
    let more = commit_lines rest in
    elim (short_hash c.hash) [
      | none ↦ none
      | some short ↦ elim more [
        | none ↦ none
        | some text ↦ some (
            10 ∷ codes "  •   <"
            ++ c.html
            ++ codes "|`"
            ++ short
            ++ codes "`> "
            ++ cut_before 10 c.message
            ++ text)
      ]
    ]

abbrev pub pushed : Text → List Commit → Option Text → Option Text
pushed pr_url commits none = none
pushed pr_url commits (some text) = some (
    codes "%s pushed <"
    ++ pr_url
    ++ codes "/commits|"
    ++ decimal (length commits) (
        codes " commit"
        ++ (if nat_eq (length commits) 1 then [] else codes "s")
        ++ codes "> to this PR:"
        ++ text))

abbrev pub push_message : Text → Option (List Commit) → Option Text
push_message pr_url none = none
push_message pr_url (some commits) = pushed pr_url commits (commit_lines commits)

unfoldable pub commits_part : Answers → Event → PullRequest → PullRequest → Outcome Effect
unfolding text_beq new_commits commit_lines decimal
commits_part q event old pr =
    let msg = push_message pr.html_url (new_commits q.commits old.commit_count pr.commit_count) in
    let told : Outcome Effect = elim msg [
      | none ↦ record { effects = []; failed = true }
      | some text ↦ call (message text) then_do call (update_activity_call (q.email_of event.actor))
    ] in
    if ltb 0 pr.commit_count && not (old.source_hash == pr.source_hash)
    then (call store_diffstat_call then_do told)
    else nothing

-- The parts, for the previous snapshot and the pull request with its commits counted.
unfoldable pub announced : Answers → Event → PullRequest → PullRequest → Outcome Effect
unfolding draft_part title_part description_part reviewers_part branch_part commits_part
announced q event old pr =
    draft_part q event old pr
    then_do title_part q old pr
    then_do description_part q event old pr
    then_do reviewers_part q old pr
    then_do branch_part q event old pr
    then_do commits_part q event old pr
    then_do call (update_bookmarks pr)

abbrev pub update_with :
    Answers → Event → PullRequest → Result (Option PullRequest) → Outcome Effect
update_with q event pr (err e) = record {
  effects = alert (codes "can't handle PR update event") ∷ [];
  failed = true;
}
update_with q event pr (ok none) =
    call init_data
    then_do call (warning (codes "Reinitialized PR snapshot instead of handling update event"))
update_with q event pr (ok (some old)) = announced q event old pr

-- `PullRequestUpdatedWorkflow`
unfoldable pub pull_request_updated_workflow : Answers → Event → Outcome Effect
unfolding switch_pr_snapshot announced
pull_request_updated_workflow q event =
    let pr : PullRequest = record event.pull_request { commit_count = length q.commits } in
    let switched = switch_pr_snapshot q.previous pr in
    elim q.channel [
      | none ↦ nothing
      | some channel_id ↦ call (store_snapshot switched.1) then_do update_with q event pr switched.0
    ]
