-- ===== src/Bitbucket/Reviewed.antt =====
-- `PullRequestReviewedWorkflow` of pkg/bitbucket/workflows/pullrequest.go.
use revchat.Base.{
  ◌+◌, ◌-◌, Bool, true, false, not, ◌&&◌, [], ◌∷◌, Option, none, some, if◌then◌else◌, ◌==◌,
  is_empty,
}
use revchat.Base.Text.{Text, codes, text_eq, text_beq, has_prefix}
use revchat.Bitbucket.Effects.{
  Effect, message, alert, switch_turn_call, remove_reviewer_call, update_activity_call, invite,
  update_bookmarks, store_snapshot, Answers,
}
use revchat.Handlers.{Outcome, nothing, ◌then_do◌, call, checked_call}
use revchat.Bitbucket.Payload.{PullRequest, Event}
use revchat.Bitbucket.Snapshot.{switch_pr_snapshot}
use revchat.Result.{Result, ok, err}

-- What a case of the switch does: its calls, its message, and the changed pull request.
pub record Case : Type 0 where
  pub outcome : Outcome Effect
  pub text : Text
  pub pull_request : PullRequest

unfoldable pub approved_case : Answers → Event → Case
approved_case q event =
    let email = q.email_of event.actor in
    let removal = remove_reviewer_call email true in
    let told =
      if q.fails removal
      then call (alert (codes "failed to remove approver from PR turns"))
      else nothing in
    record {
      outcome = checked_call q.fails removal then_do told;
      text = codes "%s approved this PR. :+1:";
      pull_request = event.pull_request;
    }

unfoldable pub unapproved_case : Answers → Event → Case
unapproved_case q event =
    let email = q.email_of event.actor in
    let invitation =
      if q.is_opted_in email
      then checked_call q.fails (invite (q.email_to_slack_id email ∷ []))
      else nothing in
    record {
      outcome = call (update_activity_call email) then_do invitation;
      text = codes "%s unapproved this PR. :-1:";
      pull_request = event.pull_request;
    }

unfoldable pub request_created_case : Answers → Event → Case
request_created_case q event =
    let pr = event.pull_request in
    record {
      outcome = checked_call q.fails (switch_turn_call (q.email_of event.actor) false);
      text = codes "%s requested changes in this PR. :warning:";
      pull_request = record pr { change_request_count = pr.change_request_count + 1 };
    }

-- The count does not go below 0.
unfoldable pub request_removed_case : Answers → Event → Case
request_removed_case q event =
    let pr = event.pull_request in
    record {
      outcome = call (update_activity_call (q.email_of event.actor));
      text = [];
      pull_request = record pr { change_request_count = pr.change_request_count - 1 };
    }

-- The switch on the type of the event: none for an unknown one.
unfoldable pub review_case : Answers → Event → Option Case
unfolding approved_case unapproved_case request_created_case request_removed_case text_beq
review_case q event =
    if event.kind == codes "approved"
    then some (approved_case q event)
    else if event.kind == codes "unapproved"
    then some (unapproved_case q event)
    else if event.kind == codes "changes_request_created"
    then some (request_created_case q event)
    else if event.kind == codes "changes_request_removed"
    then some (request_removed_case q event)
    else none

abbrev pub is_error {ℓ} : {A : Type ℓ} → Result A → Bool
is_error (ok a) = false
is_error (err e) = true

-- What follows the switch: the snapshot and the message.
unfoldable pub finished : Answers → Event → Case → Outcome Effect
unfolding switch_pr_snapshot has_prefix
finished q event c =
    let switched = switch_pr_snapshot q.previous c.pull_request in
    let lost = has_prefix event.kind (codes "changes_request") && is_error switched.0 in
    let told : Outcome Effect =
      if lost
      then record {
        effects = alert (codes "failed to update change-request count in PR snapshot") ∷ [];
        failed = true;
      }
      else nothing in
    let announced = if not (is_empty c.text) then call (message c.text) else nothing in
    c.outcome then_do call (store_snapshot switched.1) then_do told then_do announced

-- `PullRequestReviewedWorkflow`
unfoldable pub pull_request_reviewed_workflow : Answers → Event → Outcome Effect
unfolding review_case finished
pull_request_reviewed_workflow q event =
    let bookmarks = call (update_bookmarks event.pull_request) in
    elim q.channel [
      | none ↦ nothing
      | some channel_id ↦ elim (review_case q event) [
        | none ↦ record { effects = alert [] ∷ []; failed = true } then_do bookmarks
        | some c ↦ finished q event c then_do bookmarks
      ]
    ]
