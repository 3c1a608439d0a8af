-- ===== src/Bitbucket/Effects.antt =====
-- The calls that the handlers of pull requests make, in their order.
use revchat.Base.{Bool, List, Option}
use revchat.Base.Text.{Text}
use revchat.Bitbucket.Payload.{Account, Commit, PullRequest}
use revchat.Result.{Result}

pub data Effect : Type 0 where
  -- `MentionUserInMsg` by the actor, `AlertError` and `AlertWarn` with their texts
  message alert warning : Text → Effect
  -- `SetReviewerTurn`, `SwitchTurn`, `RemoveReviewerFromTurns` and `UpdateActivityTime`
  set_reviewer_turn_call switch_turn_call remove_reviewer_call : Text → Bool → Effect
  update_activity_call : Text → Effect
  -- `InviteUsersToChannel` and `KickUsersFromChannel`
  invite kick : List Text → Effect
  -- `SetChannelDescription` and `RenameChannel` with the title, `UpdateChannelBookmarks`
  describe rename : Text → Effect
  update_bookmarks : PullRequest → Effect
  store_snapshot : PullRequest → Effect
  store_diffstat_call init_data cleanup archive : Effect
  post : Text → Effect

-- What the rest of the program and the services answer to a handler.
pub record Answers : Type 0 where
  -- `LookupChannel`
  pub channel : Option Text
  -- `BitbucketActorToEmail`
  pub email_of : Account → Text
  -- `LoadPRSnapshot`
  pub previous : Result (Option PullRequest)
  -- `Commits`, from the last one to the first
  pub commits : List Commit
  -- `IsOptedIn` of the user with an address, and `EmailToSlackID`
  pub is_opted_in : Text → Bool
  pub email_to_slack_id : Text → Text
  -- `BitbucketIDToSlackID` for users who have opted in, and `BitbucketIDToSlackRef`
  pub slack_id : Text → Text
  pub slack_ref : Text → Text
  -- `LinkifyTitle`, and `BitbucketToSlack`
  pub linkified : Text → Text
  pub to_slack : Text → Text
  -- Which calls return an error
  pub fails : Effect → Bool
