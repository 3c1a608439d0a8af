-- ===== src/Github/Untracked.antt =====
-- Pull requests without a channel: the handlers do nothing for them.
use revchat.Base.{
  Bool, true, false, ◌||◌, [], none, if◌then◌else◌, ◌==◌, contains, ◌≡◌, refl, arith,
}
use revchat.Base.Text.{Text, codes, text_eq}
use revchat.Github.Payload.{Event, Effect, Answers}
use revchat.Github.Lifecycle.{
  failing, pr_closed, pr_converted_to_draft, pr_ready_for_review, lookup_channel,
}
use revchat.Github.Requests.{pr_review_requests}
use revchat.Github.Workflow.{pr_edited, pr_synchronized, ignored_actions, pull_request_workflow}
use revchat.Handlers.{Outcome, nothing}

abbrev IsSilent : Outcome Effect → Type 0
IsSilent o = o.effects ≡ []

either-IsSilent :
    (b : Bool) (x y : Outcome Effect) → IsSilent x → IsSilent y → IsSilent (if b then x else y)
either-IsSilent true x y h k = h
either-IsSilent false x y h k = k

module _ (q : Answers) (event : Event) (untracked : q.channel ≡ none) where
  lookup_channel-none : lookup_channel q event ≡ none
  unfolding lookup_channel
  lookup_channel-none = ground (arith, untracked)

  pr_closed-IsSilent : IsSilent (pr_closed q event)
  unfolding pr_closed
  pr_closed-IsSilent = rw (untracked, pr_closed) refl

  pr_converted_to_draft-IsSilent : IsSilent (pr_converted_to_draft q event)
  unfolding pr_converted_to_draft
  pr_converted_to_draft-IsSilent = rw (untracked, pr_converted_to_draft) refl

  pr_ready_for_review-IsSilent : IsSilent (pr_ready_for_review q event)
  unfolding pr_ready_for_review
  pr_ready_for_review-IsSilent = rw (untracked, pr_ready_for_review) refl

  pr_review_requests-IsSilent : IsSilent (pr_review_requests q event)
  unfolding pr_review_requests
  pr_review_requests-IsSilent = rw (lookup_channel-none, pr_review_requests) refl

  pr_edited-IsSilent : IsSilent (pr_edited q event)
  unfolding pr_edited
  pr_edited-IsSilent = rw (lookup_channel-none, pr_edited) refl

  pr_synchronized-IsSilent : IsSilent (pr_synchronized q event)
  unfolding pr_synchronized
  pr_synchronized-IsSilent = rw (lookup_channel-none, pr_synchronized) refl

  -- Without a channel for it, no event of a pull request makes a call, but for the two that open it:
  -- nothing is posted, and the attention state stays as it is.
  pub pull_request_workflow-IsSilent :
      (event.action == codes "opened" || event.action == codes "reopened") ≡ false
      → IsSilent (pull_request_workflow q event)
  unfolding pull_request_workflow
  pull_request_workflow-IsSilent other =
      let is : Text → Bool = λ action. event.action == action in
      rw (other, pull_request_workflow)
        (either-IsSilent (is (codes "closed")) _ _ pr_closed-IsSilent (
          either-IsSilent (is (codes "converted_to_draft")) _ _ pr_converted_to_draft-IsSilent (
            either-IsSilent (is (codes "ready_for_review")) _ _ pr_ready_for_review-IsSilent (
              either-IsSilent
                (is (codes "assigned")
                  || is (codes "unassigned")
                  || is (codes "review_requested")
                  || is (codes "review_request_removed"))
                _ _ pr_review_requests-IsSilent
                (either-IsSilent (is (codes "edited")) _ _ pr_edited-IsSilent (
                  either-IsSilent (is (codes "synchronize")) _ _ pr_synchronized-IsSilent (
                    either-IsSilent (contains ignored_actions event.action) nothing
                      (failing nothing) refl refl)))))))
