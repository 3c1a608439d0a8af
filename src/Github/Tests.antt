-- ===== src/Github/Tests.antt =====
-- Events of GitHub, and the theorem on pull requests without a channel at a concrete one.
use revchat.Base.{false, List, [], ◌∷◌, none, some, ◌≡◌, refl}
use revchat.Base.Text.{codes, text_eq, text_beq}
use revchat.Github.Payload.{
  User, PullRequest, Event, Effect, Answers, message, update_activity_call, update_bookmarks,
  init_data,
}
use revchat.Github.Untracked
use revchat.Github.Workflow.{pull_request_workflow}

abbrev ann : User
ann = record { login = codes "ann"; user_type = codes "User"; html_url = codes "h" }

abbrev bob : User
bob = record { login = codes "bob"; user_type = codes "User"; html_url = codes "h" }

abbrev pr : PullRequest
pr = record {
  title = codes "t";
  body = [];
  state = codes "open";
  html_url = codes "u";
  draft = false;
  merged = false;
  author = ann;
  requested_reviewers = [];
  assignees = [];
  base_ref = codes "main";
  base_repo_url = codes "r";
}

abbrev push : Event
push = record {
  action = codes "synchronize";
  pull_request = pr;
  sender = bob;
  assignee = none;
  requested_reviewer = none;
  requested_team = none;
  changes = none;
  after = some (codes "12345678");
}

abbrev answers : Answers
answers = record {
  created = some (codes "C1");
  channel = some (codes "C1");
  email_of = λ login. login;
  slack_id = λ login. login;
  slack_ref = λ u. u.login;
  followers = λ login. [];
  linkified = λ s. s;
  to_slack = λ s. s;
  fails = λ e. false;
}

pushed_commit :
    (pull_request_workflow answers push).effects
    ≡ update_activity_call (codes "bob")
      ∷ message (codes "%s pushed commit [`1234567`](u/commits/12345678) into the head branch")
      ∷ update_bookmarks
      ∷ []
unfolding pull_request_workflow text_beq
pushed_commit = refl

abbrev first_call : List Effect → List Effect
first_call [] = []
first_call (e ∷ rest) = e ∷ []

-- The one who reopens a pull request becomes the author in its turns.
reopened_by_another :
    first_call (pull_request_workflow answers (record push { action = codes "reopened" })).effects
    ≡ init_data (codes "u") (codes "bob") ∷ []
unfolding pull_request_workflow text_beq
reopened_by_another = refl

abbrev no_channel : Answers
no_channel = record answers { channel = none }

pull_request_workflow-IsSilent_example : (pull_request_workflow no_channel push).effects ≡ []
unfolding text_beq
pull_request_workflow-IsSilent_example =
    Untracked.pull_request_workflow-IsSilent no_channel push refl refl

-- The old base branch is printed as a struct.
retargeted :
    (pull_request_workflow answers (record push {
      action = codes "edited";
      changes = some (record { title = false; body = false; base = some (codes "old") });
    })).effects
    ≡ message
        (codes "%s changed the base branch from <r/tree/{old}|`{old}`> to <r/tree/main|`main`>.")
      ∷ update_activity_call (codes "bob")
      ∷ update_bookmarks
      ∷ []
unfolding pull_request_workflow text_beq
retargeted = refl
