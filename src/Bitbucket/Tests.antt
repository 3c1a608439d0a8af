-- ===== src/Bitbucket/Tests.antt =====
-- Events of pull requests, and the theorems at a concrete one.
use revchat.Base.{
  ◌-◌, true, false, not, ◌&&◌, List, [], ◌∷◌, some, if◌then◌else◌, ltb, ◌==◌, ◌≡◌, refl, arith,
  contains, length, take,
}
use revchat.Base.Text.{Text, codes, text_eq, text_beq}
use revchat.Bitbucket.Closed.{pull_request_closed_workflow}
use revchat.Bitbucket.Counts
use revchat.Bitbucket.Counts.{stored_counts}
use revchat.Bitbucket.Effects.{message, alert, post, cleanup, archive, Answers}
use revchat.Bitbucket.Payload.{Account, Commit, PullRequest, Event}
use revchat.Bitbucket.Reviewed.{pull_request_reviewed_workflow}
use revchat.Bitbucket.Reviewers
use revchat.Bitbucket.Reviewers.{user_ids, reviewers_diff, account_ids_to_slack_mentions}
use revchat.Bitbucket.Updated.{reversed_commits, new_commits}
use revchat.Result.{ok}

abbrev person : Text → Account
person id = record { account_id = id; account_type = codes "user" }

abbrev before : PullRequest
before = record {
  id = 7;
  title = codes "t";
  description = [];
  draft = false;
  source_hash = codes "abcdefgh";
  destination_branch = codes "main";
  commit_count = 2;
  change_request_count = 3;
  author = person (codes "a");
  participants = [];
  reviewers = person (codes "b") ∷ person (codes "c") ∷ [];
  reason = [];
  html_url = codes "u";
}

abbrev after : PullRequest
after = record before {
  change_request_count = 0;
  reviewers = person (codes "d") ∷ person (codes "c") ∷ [];
}

abbrev answers : Answers
answers = record {
  channel = some (codes "C1");
  email_of = λ a. a.account_id;
  previous = ok (some before);
  commits = [];
  is_opted_in = λ email. true;
  email_to_slack_id = λ email. email;
  slack_id = λ id. id;
  slack_ref = λ id. if id == codes "x" then [] else id;
  linkified = λ s. s;
  to_slack = λ s. s;
  fails = λ e. false;
}

abbrev taken_back : Event
taken_back = record {
  kind = codes "changes_request_removed";
  pull_request = after;
  actor = person (codes "b");
  repository_url = codes "r";
}

pull_request_reviewed_workflow_keeps_example :
    stored_counts (pull_request_reviewed_workflow answers taken_back).effects ≡ 3 ∷ []
pull_request_reviewed_workflow_keeps_example =
    Counts.pull_request_reviewed_workflow_keeps answers taken_back (codes "C1") before refl refl
      refl refl

reviewers_diff-contains_example :
    (contains (reviewers_diff before after).0 (codes "d") ≡ (
      contains (user_ids after.reviewers) (codes "d")
      && not (contains (user_ids before.reviewers) (codes "d"))))
    × (contains (reviewers_diff before after).1 (codes "d") ≡ (
        contains (user_ids before.reviewers) (codes "d")
        && not (contains (user_ids after.reviewers) (codes "d"))))
reviewers_diff-contains_example = Reviewers.reviewers_diff-contains before after (codes "d")

diff : reviewers_diff before after ≡ (codes "d" ∷ [], codes "b" ∷ [])
unfolding reviewers_diff text_beq
diff = refl

abbrev commit : Text → Commit
commit hash = record { hash = hash; message = codes "m"; html = codes "h" }

abbrev three_commits : List Commit
three_commits = commit (codes "c3") ∷ commit (codes "c2") ∷ commit (codes "c1") ∷ []

new_commits-announced_example :
    new_commits three_commits 1 3
    ≡ some (
        reversed_commits (
          take
            (if ltb 1 (length three_commits) then length three_commits - 1 else 1)
            three_commits))
new_commits-announced_example = Counts.new_commits-announced three_commits 1 (omega arith)

two_announced :
    new_commits three_commits 1 3 ≡ some (commit (codes "c2") ∷ commit (codes "c3") ∷ [])
unfolding new_commits
two_announced = refl

-- A first reviewer without a mention leaves a comma in front of the second.
leading_comma :
    account_ids_to_slack_mentions answers.slack_ref (codes "x" ∷ codes "b" ∷ []) ≡ codes ", b"
unfolding account_ids_to_slack_mentions text_beq
leading_comma = refl

abbrev stuck : Answers
stuck = record answers { fails = λ e. true }

abbrev merged : Event
merged = record taken_back { kind = codes "fulfilled" }

-- The placeholder of the actor is posted as it is when the channel cannot be archived.
placeholder :
    (pull_request_closed_workflow stuck merged).effects
    ≡ message (codes "%s merged this PR.")
      ∷ cleanup
      ∷ archive
      ∷ post (codes ":boom: Failed to archive this channel, even though its PR was %s merged.")
      ∷ alert (codes "failed to archive Slack channel for u")
      ∷ []
unfolding pull_request_closed_workflow text_beq
placeholder = refl
