-- ===== src/Turns/Snapshot.antt =====
-- What `resetTurns` reads in the snapshot of a pull request.
use revchat.Base.{Bool, true, false, ◌&&◌, List, [], ◌∷◌, Option, none, some, if◌then◌else◌, ◌==◌}
use revchat.Base.Dict.{put}
use revchat.Base.Text.{Text, codes, text_eq}
use revchat.Json.{Json, Fields, get, as_bool, as_text, as_object, as_list}
use revchat.Turns.State.{Time, PrTurns}

-- What the snapshot's readers ask of other parts: `bitbucketIDToEmail` on an account ID and type,
-- and `time.Parse` with the layout RFC3339.
pub record Lookups : Type 0 where
  pub bitbucket_id_to_email : Text → Text → Text
  pub parse_time : Text → Option Time

abbrev or_empty : Option Text → Text
or_empty (some s) = s
or_empty none = []

abbrev or_false : Option Bool → Bool
or_false (some b) = b
or_false none = false

-- `listOf`
unfoldable pub list_of : Fields → Text → List Json
list_of pr key = elim (as_list (get key pr)) [ some l ↦ l | none ↦ [] ]

module _ (q : Lookups) where
  account_email_and_type : Option Text → Fields → Text × Text
  account_email_and_type none user = ([], [])
  account_email_and_type (some id) user =
      let account_type : Text = or_empty (as_text (get (codes "type") user)) in
      (q.bitbucket_id_to_email id account_type, account_type)

  -- `userEmailAndType`
  unfoldable pub user_email_and_type : Json → Text × Text
  unfolding account_email_and_type
  user_email_and_type details = elim (as_object details) [
    | none ↦ ([], [])
    | some user ↦ account_email_and_type (as_text (get (codes "account_id") user)) user
  ]

  parsed_time : Option Text → Time
  parsed_time none = 0
  parsed_time (some s) = elim (q.parse_time s) [ some t ↦ t | none ↦ 0 ]

  -- `userActivity`
  unfoldable pub user_activity : Json → Text × Bool × Time
  unfolding user_email_and_type parsed_time
  user_activity details = elim (as_object details) [
    | none ↦ ([], false, 0)
    | some participant ↦ (
      (user_email_and_type (Json.obj participant)).0,
      or_false (as_bool (get (codes "approved") participant)),
      parsed_time (as_text (get (codes "participated_on") participant)),
    )
  ]

  -- The loop of `resetTurns` over the reviewers, and its body.
  unfoldable pub reset_reviewer : List (Text × Bool) → Json → List (Text × Bool)
  reset_reviewer m reviewer =
      let email = (user_email_and_type reviewer).0 in if email == [] then m else put email true m

  unfoldable pub reset_reviewers : List (Text × Bool) → List Json → List (Text × Bool)
  unfolding reset_reviewer
  reset_reviewers m [] = m
  reset_reviewers m (reviewer ∷ rest) = reset_reviewers (reset_reviewer m reviewer) rest

  -- The loop of `resetTurns` over the participants, and its body.
  unfoldable pub reset_participant :
      List (Text × Time) × List (Text × Time) → Json → List (Text × Time) × List (Text × Time)
  reset_participant (activity, approvers) participant =
      let (email, approved, timestamp) = user_activity participant in
      if email == [] then (activity, approvers) else (
        put email timestamp activity,
        if approved then put email timestamp approvers else approvers,
      )

  unfoldable pub reset_participants :
      List (Text × Time) × List (Text × Time) → List Json → List (Text × Time) × List (Text × Time)
  unfolding reset_participant
  reset_participants maps [] = maps
  reset_participants maps (participant ∷ rest) =
      reset_participants (reset_participant maps participant) rest

  -- The author: an app that has no email address is a bot.
  unfoldable pub reset_author : Fields → Text
  reset_author pr =
      let (author, account_type) = user_email_and_type (get (codes "author") pr) in
      if author == [] && account_type == codes "app_user" then codes "bot" else author

  -- The state that `resetTurns` recreates.
  unfoldable pub recreated : Fields → PrTurns
  unfolding reset_author reset_reviewers reset_participants list_of
  recreated pr =
      let (activity, approvers) = reset_participants ([], []) (list_of pr (codes "participants")) in
      record {
        author = reset_author pr;
        reviewers = reset_reviewers [] (list_of pr (codes "reviewers"));
        activity = activity;
        approvers = approvers;
        frozen_at = 0;
        frozen_by = [];
      }
