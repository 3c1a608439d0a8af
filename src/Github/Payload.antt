-- ===== src/Github/Payload.antt =====
-- pkg/github/payloads.go: the parts of an event that the handlers look at, the calls that they make,
-- and what the services and the rest of the program answer to them.
use revchat.Base.{Bool, List, Option}
use revchat.Base.Text.{Text}

-- `User`
pub record User : Type 0 where
  pub login : Text
  pub user_type : Text
  pub html_url : Text

-- `PullRequest`, with the names of its base branch and of the URL of the base repository.
pub record PullRequest : Type 0 where
  pub title : Text
  pub body : Text
  pub state : Text
  pub html_url : Text
  pub draft : Bool
  pub merged : Bool
  pub author : User
  pub requested_reviewers : List User
  pub assignees : List User
  pub base_ref : Text
  pub base_repo_url : Text

-- The name and the URL of a team.
pub record Team : Type 0 where
  pub name : Text
  pub html_url : Text

-- `Changes`: whether the title and the body changed, and the base branch before, the `From` of its
-- `Ref`.
pub record Changes : Type 0 where
  pub title : Bool
  pub body : Bool
  pub base : Option Text

-- `PullRequestEvent`
pub record Event : Type 0 where
  pub action : Text
  pub pull_request : PullRequest
  pub sender : User
  pub assignee : Option User
  pub requested_reviewer : Option User
  pub requested_team : Option Team
  pub changes : Option Changes
  pub after : Option Text

pub data Effect : Type 0 where
  -- `MentionUserInMsg` by the sender, `AlertError`, and `PostMessage` to a user or a channel
  message alert : Text → Effect
  post : Text → Text → Effect
  -- `SetReviewerTurn`, `SwitchTurn` and `UpdateActivityTime`
  set_reviewer_turn_call switch_turn_call : Text → Bool → Effect
  update_activity_call : Text → Effect
  -- `InviteUsersToChannel` with the followers, `KickUsersFromChannel`
  invite : List Text → List Text → Effect
  kick : List Text → Effect
  -- `SetChannelTopic`, `SetChannelDescription` and `RenameChannel` with the title
  set_topic describe rename : Text → Effect
  -- `InitPRData`: the URL and the address that becomes the author of the turns
  init_data : Text → Text → Effect
  set_bookmarks update_bookmarks cleanup archive : Effect

pub record Answers : Type 0 where
  -- `CreateChannel` and `LookupChannel`
  pub created : Option Text
  pub channel : Option Text
  -- `GitHubIDToEmail`; `GitHubIDToSlackID` of a user who has opted in; `GitHubIDToSlackRef`
  pub email_of : Text → Text
  pub slack_id : Text → Text
  pub slack_ref : User → Text
  -- The followers of a user
  pub followers : Text → List Text
  -- `LinkifyTitle` and `GitHubToSlack`
  pub linkified : Text → Text
  pub to_slack : Text → Text
  -- Which calls return an error
  pub fails : Effect → Bool
