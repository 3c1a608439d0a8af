-- ===== src/Github/Workflow.antt =====
-- pkg/github/workflows/pr.go: `prEdited`, `prSynchronized` and `PullRequestWorkflow`.
use revchat.Base.{
  Bool, ◌||◌, List, [], ◌∷◌, ◌++◌, Option, none, some, if◌then◌else◌, ◌==◌, is_empty, contains, leb,
  length, take,
}
use revchat.Base.Text.{Text, codes, text_eq, text_beq}
use revchat.Channel.Name.{trim_space}
use revchat.Github.Payload.{
  Changes, Event, Effect, message, update_activity_call, describe, rename, update_bookmarks,
  Answers,
}
use revchat.Handlers.{Outcome, nothing, ◌then_do◌, call, checked_call}
use revchat.Github.Lifecycle.{
  when, failing, pr_opened, pr_closed, pr_converted_to_draft, pr_ready_for_review, lookup_channel,
}
use revchat.Github.Requests.{pr_review_requests}

abbrev pub tree_link : Text → Text → Text
tree_link repo_url branch =
    codes "<" ++ repo_url ++ codes "/tree/" ++ branch ++ codes "|`" ++ branch ++ codes "`>"

-- A `ChangeFrom` as "%s" writes this struct.
abbrev pub printed_change : Text → Text
printed_change from = b'{' ∷ (from ++ codes "}")

-- `prEdited` after the lookup, for the changes of the event.
unfoldable pub edited_parts : Answers → Event → Changes → Outcome Effect
unfolding trim_space
edited_parts q event changes =
    let pr = event.pull_request in
    let touched = call (update_activity_call (q.email_of event.sender.login)) in
    let body = trim_space pr.body in
    let titled =
      call (message (codes ":pencil2: %s edited the PR title: " ++ q.linkified pr.title))
      then_do call (describe pr.title)
      then_do checked_call q.fails (rename pr.title) in
    let described =
      call (
        message (
          if is_empty body
          then codes ":pencil2: %s deleted the PR description."
          else codes ":pencil2: %s edited the PR description:" ++ (10 ∷ 10 ∷ q.to_slack body)))
      then_do touched in
    let moved : Outcome Effect = elim changes.base [
      | none ↦ nothing
      | some old ↦
          call (
            message (
              codes "%s changed the base branch from "
              ++ tree_link pr.base_repo_url (printed_change old)
              ++ codes " to "
              ++ tree_link pr.base_repo_url pr.base_ref
              ++ codes "."))
          then_do touched
    ] in
    when changes.title titled then_do when changes.body described then_do moved

-- `prEdited`: without changes it dereferences a nil pointer.
unfoldable pub pr_edited : Answers → Event → Outcome Effect
unfolding lookup_channel edited_parts
pr_edited q event =
    let parts : Outcome Effect = elim event.changes [
      | none ↦ failing nothing
      | some changes ↦ edited_parts q event changes
    ] in
    elim (lookup_channel q event) [
      | none ↦ nothing
      | some channel_id ↦ parts then_do call update_bookmarks
    ]

-- The message on a pushed commit: none for the panic of `after[:7]`.
unfoldable pub push_text : Text → Text → Option Text
push_text pr_url after =
    if leb 7 (length after)
    then some (
        codes "%s pushed commit [`"
        ++ take 7 after
        ++ codes "`]("
        ++ pr_url
        ++ codes "/commits/"
        ++ after
        ++ codes ") into the head branch")
    else none

-- `prSynchronized`
unfoldable pub pr_synchronized : Answers → Event → Outcome Effect
unfolding lookup_channel push_text
pr_synchronized q event =
    let told : Outcome Effect = elim event.after [
      | none ↦ nothing
      | some after ↦ elim (push_text event.pull_request.html_url after) [
        | none ↦ failing nothing
        | some text ↦ call (message text)
      ]
    ] in
    elim (lookup_channel q event) [
      | none ↦ nothing
      | some channel_id ↦
          call (update_activity_call (q.email_of event.sender.login))
          then_do told
          then_do call update_bookmarks
    ]

-- The actions that are logged or ignored.
abbrev pub ignored_actions : List Text
ignored_actions =
    codes "locked"
    ∷ codes "unlocked"
    ∷ codes "auto_merge_enabled"
    ∷ codes "auto_merge_disabled"
    ∷ codes "enqueued"
    ∷ codes "dequeued"
    ∷ codes "labeled"
    ∷ codes "unlabeled"
    ∷ codes "milestoned"
    ∷ codes "demilestoned"
    ∷ []

-- `PullRequestWorkflow`
unfoldable pub pull_request_workflow : Answers → Event → Outcome Effect
unfolding text_beq contains pr_opened pr_closed pr_converted_to_draft pr_ready_for_review
    pr_review_requests pr_edited pr_synchronized
pull_request_workflow q event =
    let is : Text → Bool = λ action. event.action == action in
    if is (codes "opened") || is (codes "reopened")
    then pr_opened q event
    else if is (codes "closed")
    then pr_closed q event
    else if is (codes "converted_to_draft")
    then pr_converted_to_draft q event
    else if is (codes "ready_for_review")
    then pr_ready_for_review q event
    else if is (codes "assigned")
        || is (codes "unassigned")
        || is (codes "review_requested")
        || is (codes "review_request_removed")
    then pr_review_requests q event
    else if is (codes "edited")
    then pr_edited q event
    else if is (codes "synchronize")
    then pr_synchronized q event
    else if contains ignored_actions event.action
    then nothing
    else failing nothing
