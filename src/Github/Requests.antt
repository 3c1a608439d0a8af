-- ===== src/Github/Requests.antt =====
-- pkg/github/workflows/pr.go: `prReviewRequests`, the assignees and the requested reviewers.
use revchat.Base.{not, List, [], ◌∷◌, ◌++◌, none, some, if◌then◌else◌, ◌==◌}
use revchat.Base.Text.{Text, codes, text_eq, text_beq}
use revchat.Github.Members.{logins_to_slack_ids, role_mentions}
use revchat.Github.Payload.{
  User, Team, Event, Effect, message, invite, kick, update_bookmarks, Answers,
}
use revchat.Handlers.{Outcome, nothing, ◌then_do◌, call, checked_call}
use revchat.Github.Lifecycle.{when, lookup_channel}

-- An invitation, unless the pull request is a draft.
abbrev pub invite_if_ready : Answers → Event → List Text → Outcome Effect
invite_if_ready q event ids =
    when (not event.pull_request.draft) (checked_call q.fails (invite ids []))

unfoldable pub assignee_part : Answers → Event → User → Outcome Effect
unfolding logins_to_slack_ids role_mentions text_beq
assignee_part q event user =
    if event.action == codes "assigned"
    then (call (message (role_mentions q.slack_ref (codes "set") (codes "assignee") (user ∷ [])))
        then_do invite_if_ready q event (logins_to_slack_ids q.slack_id (user.login ∷ [])))
    else when (event.action == codes "unassigned") (
        call (message (role_mentions q.slack_ref (codes "removed") (codes "assignee") (user ∷ []))))

unfoldable pub reviewer_part : Answers → Event → User → Outcome Effect
unfolding logins_to_slack_ids role_mentions text_beq
reviewer_part q event user =
    let ids = logins_to_slack_ids q.slack_id (user.login ∷ []) in
    if event.action == codes "review_requested"
    then (call (message (role_mentions q.slack_ref (codes "added") (codes "reviewer") (user ∷ [])))
        then_do invite_if_ready q event ids)
    else when (event.action == codes "review_request_removed") (
        call (message (role_mentions q.slack_ref (codes "removed") (codes "reviewer") (user ∷ [])))
        then_do checked_call q.fails (kick ids))

unfoldable pub team_part : Answers → Event → Team → Outcome Effect
unfolding text_beq
team_part q event team =
    let link = codes "  <" ++ team.html_url ++ codes "?preview=no|" ++ team.name ++ codes ">." in
    if event.action == codes "review_requested"
    then (call (message (codes ":bust_in_silhouette: %s added this team as reviewers:" ++ link))
        then_do invite_if_ready q event [])
    else when (event.action == codes "review_request_removed") (
        call (message (codes ":bust_in_silhouette: %s removed this team as reviewers:" ++ link))
        then_do checked_call q.fails (kick []))

-- `prReviewRequests`
unfoldable pub pr_review_requests : Answers → Event → Outcome Effect
unfolding lookup_channel assignee_part reviewer_part team_part
pr_review_requests q event =
    let assigned : Outcome Effect = elim event.assignee [
      | none ↦ nothing
      | some u ↦ assignee_part q event u
    ] in
    let reviewed : Outcome Effect = elim event.requested_reviewer [
      | none ↦ nothing
      | some u ↦ reviewer_part q event u
    ] in
    let by_team : Outcome Effect = elim event.requested_team [
      | none ↦ nothing
      | some t ↦ team_part q event t
    ] in
    elim (lookup_channel q event) [
      | none ↦ nothing
      | some channel_id ↦ assigned then_do reviewed then_do by_team then_do call update_bookmarks
    ]
