-- ===== src/Github/Members.antt =====
-- pkg/github/slack_members.go, and `userLogins` of pull_requests.go.
use revchat.Base.{
  Bool, true, false, not, List, [], ◌∷◌, ◌++◌, if◌then◌else◌, ◌==◌, nat_eq, ltb, length,
}
use revchat.Base.Sorting.{sort_compact}
use revchat.Base.Text.{Text, codes, text_eq, text_beq}
use revchat.Github.Payload.{User, PullRequest}

unfoldable pub person_logins : List User → List Text
unfolding text_beq
person_logins [] = []
person_logins (u ∷ rest) =
    let more = person_logins rest in if u.user_type == codes "User" then u.login ∷ more else more

-- `userLogins`
unfoldable pub user_logins : List User → List Text
unfolding person_logins sort_compact
user_logins us = sort_compact (person_logins us)

unfoldable pub known_slack_ids : (Text → Text) → List Text → List Text
unfolding text_beq
known_slack_ids slack_id [] = []
known_slack_ids slack_id (login ∷ rest) =
    let more = known_slack_ids slack_id rest in
    if slack_id login == [] then more else slack_id login ∷ more

-- `LoginsToSlackIDs`
unfoldable pub logins_to_slack_ids : (Text → Text) → List Text → List Text
unfolding known_slack_ids sort_compact
logins_to_slack_ids slack_id logins = sort_compact (known_slack_ids slack_id logins)

-- `ChannelMembers`
unfoldable pub members_of : (Text → Text) → PullRequest → List Text
unfolding user_logins logins_to_slack_ids sort_compact
members_of slack_id pr =
    let others = if not pr.draft then pr.requested_reviewers ++ pr.assignees else [] in
    sort_compact (logins_to_slack_ids slack_id (user_logins (pr.author ∷ others)))

-- The loop of `ReviewerMentions`, with whether a user is the first.
unfoldable pub user_mentions : (User → Text) → Bool → List User → Text
unfolding text_beq
user_mentions ref first [] = []
user_mentions ref first (u ∷ rest) =
    let more = user_mentions ref false rest in
    if ref u == [] then more else if first then ref u ++ more else codes ", " ++ (ref u ++ more)

-- `ReviewerMentions`
unfoldable pub role_mentions : (User → Text) → Text → Text → List User → Text
unfolding user_mentions
role_mentions ref action role reviewers =
    codes ":bust_in_silhouette: %s "
    ++ action
    ++ (if nat_eq (length reviewers) 1 then codes " this " else codes " these ")
    ++ role
    ++ (if ltb 1 (length reviewers) then codes "s" else [])
    ++ codes ": "
    ++ user_mentions ref true reviewers
    ++ codes "."
