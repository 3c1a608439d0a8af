-- ===== src/Github/Lifecycle.antt =====
-- pkg/github/workflows/pr.go: the handlers that open, close and hand over a pull request, and
-- the lookup of its channel.
use revchat.Base.{
  Bool, true, not, ◌&&◌, [], ◌∷◌, ◌++◌, Option, none, some, if◌then◌else◌, ◌==◌, is_empty,
}
use revchat.Base.Text.{Text, codes, text_eq, text_beq}
use revchat.Channel.Name.{trim_space}
use revchat.Github.Members.{members_of}
use revchat.Github.Payload.{
  Event, Effect, message, alert, post, set_reviewer_turn_call, switch_turn_call, invite, set_topic,
  describe, init_data, set_bookmarks, cleanup, archive, Answers,
}
use revchat.Handlers.{Outcome, nothing, ◌then_do◌, call, checked_call}

-- A part that the handlers leave out unless a test holds.
abbrev pub when : Bool → Outcome Effect → Outcome Effect
when b part = if b then part else nothing

-- A message to the sender, if they have opted in.
unfoldable pub tell_sender : Answers → Event → Text → Outcome Effect
unfolding text_beq
tell_sender q event text =
    let id = q.slack_id event.sender.login in when (not (id == [])) (call (post id text))

abbrev pub failing : Outcome Effect → Outcome Effect
failing o = record { effects = o.effects; failed = true }

unfoldable pub opening_message : Answers → Event → Text
unfolding trim_space text_beq
opening_message q event =
    let pr = event.pull_request in
    let body = trim_space pr.body in
    codes "%s "
    ++ (if event.action == codes "reopened" then codes "reopened" else codes "created")
    ++ codes " this PR: "
    ++ q.linkified pr.title
    ++ (if not (is_empty body) && not (body == pr.title) then 10 ∷ 10 ∷ q.to_slack body else [])

-- `prOpened`
unfoldable pub pr_opened : Answers → Event → Outcome Effect
unfolding tell_sender opening_message members_of
pr_opened q event =
    let pr = event.pull_request in
    let invitation = invite (members_of q.slack_id pr) (q.followers pr.author.login) in
    let undo = failing (
      tell_sender q event (codes "Failed to initialize a Slack channel for " ++ pr.html_url)
      then_do call archive
      then_do call cleanup
      then_do call (alert (codes "failed to invite users to Slack channel for " ++ pr.html_url))) in
    elim q.created [
      | none ↦ failing (
          tell_sender q event (codes "Failed to create a Slack channel for " ++ pr.html_url)
          then_do call (alert (codes "failed to create Slack channel for " ++ pr.html_url)))
      | some channel_id ↦
          call (init_data pr.html_url (q.email_of event.sender.login))
          then_do call (set_topic pr.html_url)
          then_do call (describe pr.title)
          then_do call set_bookmarks
          then_do call (message (opening_message q event))
          then_do call invitation
          then_do when (q.fails invitation) undo
    ]

-- `prClosed`
unfoldable pub pr_closed : Answers → Event → Outcome Effect
pr_closed q event =
    let verb = if event.pull_request.merged then codes "%s merged" else codes "%s closed" in
    let failure = failing (
      call (
        post (codes "channel") (
          codes ":boom: Failed to archive this channel, even though its PR was "
          ++ verb
          ++ codes "."))
      then_do call
          (alert (codes "failed to archive Slack channel for " ++ event.pull_request.html_url))) in
    elim q.channel [
      | none ↦ nothing
      | some channel_id ↦
          call (message (verb ++ codes " this PR."))
          then_do call cleanup
          then_do checked_call q.fails archive
          then_do when (q.fails archive) failure
    ]

-- `prConvertedToDraft`
unfoldable pub pr_converted_to_draft : Answers → Event → Outcome Effect
pr_converted_to_draft q event = elim q.channel [
  | none ↦ nothing
  | some channel_id ↦
      call (message (codes "%s marked this PR as a draft. :construction:"))
      then_do checked_call q.fails
          (set_reviewer_turn_call (q.email_of event.pull_request.author.login) true)
]

-- `prReadyForReview`
unfoldable pub pr_ready_for_review : Answers → Event → Outcome Effect
unfolding members_of
pr_ready_for_review q event = elim q.channel [
  | none ↦ nothing
  | some channel_id ↦
      call (message (codes "%s marked this PR as ready for review. :eyes:"))
      then_do checked_call q.fails (switch_turn_call (q.email_of event.sender.login) true)
      then_do checked_call q.fails (invite (members_of q.slack_id event.pull_request) [])
]

-- `lookupChannel`
unfoldable pub lookup_channel : Answers → Event → Option Text
unfolding text_beq
lookup_channel q event = if event.pull_request.state == codes "closed" then none else q.channel
