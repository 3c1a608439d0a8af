-- ===== src/Bitbucket/Reviewers.antt =====
-- pkg/bitbucket/reviewers.go, and `accountIDs` of pull_requests.go.
use revchat.Base.{
  Bool, true, false, not, ◌&&◌, ◌||◌, List, [], ◌∷◌, ◌++◌, if◌then◌else◌, ◌==◌, is_empty, contains,
  ◌≡◌, refl, ◌∙◌, arith,
}
use revchat.Base.Sorting.{sort_compact, contains-sort_compact}
use revchat.Base.Text.{Text, codes, text_eq, text_beq}
use revchat.Bitbucket.Payload.{Account, PullRequest}

-- `a.Type == "user" || a.Type == ""`
unfoldable pub is_user : Account → Bool
unfolding text_beq
is_user a = a.account_type == codes "user" || a.account_type == []

unfoldable pub user_ids : List Account → List Text
unfolding is_user
user_ids [] = []
user_ids (a ∷ rest) = let more = user_ids rest in if is_user a then a.account_id ∷ more else more

-- `accountIDs`
unfoldable pub account_ids : List Account → List Text
unfolding user_ids sort_compact
account_ids accounts = sort_compact (user_ids accounts)

-- The members of a list that are not in another: the loops of `ReviewersDiff`.
unfoldable pub not_in : List Text → List Text → List Text
unfolding contains
not_in others [] = []
not_in others (id ∷ rest) =
    let more = not_in others rest in if not (contains others id) then id ∷ more else more

-- `ReviewersDiff`
unfoldable pub reviewers_diff : PullRequest → PullRequest → List Text × List Text
unfolding account_ids not_in
reviewers_diff prev curr =
    let prev_ids = account_ids prev.reviewers in
    let curr_ids = account_ids curr.reviewers in
    (not_in prev_ids curr_ids, not_in curr_ids prev_ids)

-- `BitbucketToSlackIDs`, given the Slack ID of an account that has opted in, empty for none.
unfoldable pub bitbucket_to_slack_ids : (Text → Text) → List Text → List Text
bitbucket_to_slack_ids slack_id [] = []
bitbucket_to_slack_ids slack_id (id ∷ rest) =
    let more = bitbucket_to_slack_ids slack_id rest in
    if slack_id id == [] then more else slack_id id ∷ more

-- `ChannelMembers`
unfoldable pub channel_members : (Text → Text) → PullRequest → List Text
unfolding account_ids bitbucket_to_slack_ids sort_compact
channel_members slack_id pr =
    let others = if not pr.draft then pr.reviewers ++ pr.participants else [] in
    sort_compact (bitbucket_to_slack_ids slack_id (account_ids (pr.author ∷ others)))

-- `accountIDsToSlackMentions`, with whether it is the first ID, given the mention of an account.
unfoldable pub mentions_from : (Text → Text) → Bool → List Text → Text
mentions_from ref first [] = []
mentions_from ref first (id ∷ rest) =
    let more = mentions_from ref false rest in
    if ref id == [] then more else if first then ref id ++ more else codes ", " ++ (ref id ++ more)

unfoldable pub account_ids_to_slack_mentions : (Text → Text) → List Text → Text
unfolding mentions_from
account_ids_to_slack_mentions ref ids = mentions_from ref true ids

unfoldable pub mentioned : (Text → Text) → Text → Text → List Text → Text
unfolding account_ids_to_slack_mentions
mentioned ref one many [] = []
mentioned ref one many (id ∷ []) = one ++ account_ids_to_slack_mentions ref (id ∷ [])
mentioned ref one many (id ∷ id' ∷ rest) =
    many ++ account_ids_to_slack_mentions ref (id ∷ id' ∷ rest)

-- `ReviewerMentions`
unfoldable pub reviewer_mentions : (Text → Text) → List Text → List Text → Text
unfolding mentioned
reviewer_mentions ref added removed =
    codes ":bust_in_silhouette: %s "
    ++ mentioned ref (codes "added this reviewer: ") (codes "added these reviewers: ") added
    ++ (if not (is_empty added) && not (is_empty removed) then codes ", and " else [])
    ++ mentioned ref (codes "removed this reviewer: ") (codes "removed these reviewers: ") removed
    ++ codes "."

contains-not_in :
    (others ids : List Text) (id : Text)
    → contains (not_in others ids) id ≡ (contains ids id && not (contains others id))
unfolding contains not_in
contains-not_in others [] id = refl
contains-not_in others (k ∷ rest) id =
    ground (arith, text_eq.equals_iff k id, contains-not_in others rest id)

-- The difference is exact: the added reviewers are the users among the reviewers that were not there
-- before, the removed ones those that are not there now.
pub reviewers_diff-contains :
    (prev curr : PullRequest) (id : Text)
    → (contains (reviewers_diff prev curr).0 id
        ≡ (contains (user_ids curr.reviewers) id && not (contains (user_ids prev.reviewers) id)))
      × (contains (reviewers_diff prev curr).1 id
          ≡ (contains (user_ids prev.reviewers) id && not (contains (user_ids curr.reviewers) id)))
unfolding reviewers_diff account_ids
reviewers_diff-contains prev curr id =
    let was = contains-sort_compact (user_ids prev.reviewers) id in
    let is = contains-sort_compact (user_ids curr.reviewers) id in
    (
      contains-not_in (account_ids prev.reviewers) (account_ids curr.reviewers) id
          ∙ rw (was, is) refl,
      contains-not_in (account_ids curr.reviewers) (account_ids prev.reviewers) id
          ∙ rw (was, is) refl,
    )
