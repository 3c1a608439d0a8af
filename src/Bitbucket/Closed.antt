-- ===== src/Bitbucket/Closed.antt =====
-- `PullRequestClosedWorkflow` of pkg/bitbucket/workflows/pullrequest.go.
use revchat.Base.{true, [], ◌∷◌, ◌++◌, none, some, if◌then◌else◌, ◌==◌, is_empty}
use revchat.Base.Text.{Text, codes, text_eq, text_beq}
use revchat.Bitbucket.Effects.{Effect, message, alert, post, cleanup, archive, Answers}
use revchat.Handlers.{Outcome, nothing, ◌then_do◌, call, checked_call}
use revchat.Bitbucket.Payload.{Event}

-- The announcement: what was done, and why. "%s" stands for the actor.
unfoldable pub closing_message : Text → Event → Text
unfolding text_beq
closing_message object event =
    let verb = if event.kind == codes "fulfilled" then codes "%s merged" else codes "%s closed" in
    let reason = event.pull_request.reason in
    verb
    ++ object
    ++ (if is_empty reason then codes "." else codes " with this reason: `" ++ reason ++ codes "`")

-- `PullRequestClosedWorkflow`
unfoldable pub pull_request_closed_workflow : Answers → Event → Outcome Effect
unfolding closing_message
pull_request_closed_workflow q event =
    let failure : Outcome Effect =
      if q.fails archive
      then record {
        effects =
            post (
              codes ":boom: Failed to archive this channel, even though its PR was "
              ++ closing_message [] event)
            ∷ alert (codes "failed to archive Slack channel for " ++ event.pull_request.html_url)
            ∷ [];
        failed = true;
      }
      else nothing in
    elim q.channel [
      | none ↦ nothing
      | some channel_id ↦
          call (message (closing_message (codes " this PR") event))
          then_do call cleanup
          then_do checked_call q.fails archive
          then_do failure
    ]
