-- ===== src/Bitbucket/Payload.antt =====
-- pkg/bitbucket/payloads.go: the parts of an event that the handlers of pull requests look at.
use revchat.Base.{ℕ, Bool, List}
use revchat.Base.Text.{Text}

-- `Account`
pub record Account : Type 0 where
  pub account_id : Text
  pub account_type : Text

-- `Commit`
pub record Commit : Type 0 where
  pub hash : Text
  pub message : Text
  pub html : Text

-- `PullRequest`. The participants are given by their users, the branches by their names. A count that
-- Bitbucket does not send is 0.
pub record PullRequest : Type 0 where
  pub id : ℕ
  pub title : Text
  pub description : Text
  pub draft : Bool
  pub source_hash : Text
  pub destination_branch : Text
  pub commit_count : ℕ
  pub change_request_count : ℕ
  pub author : Account
  pub participants : List Account
  pub reviewers : List Account
  pub reason : Text
  pub html_url : Text

-- `PullRequestEvent`
pub record Event : Type 0 where
  pub kind : Text
  pub pull_request : PullRequest
  pub actor : Account
  pub repository_url : Text
