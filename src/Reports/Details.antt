-- ===== src/Reports/Details.antt =====
-- pkg/slack/pr_data.go: what a report says of a pull request, from its snapshot.
use revchat.Base.{
  ℕ, Bool, false, not, ◌&&◌, List, [], ◌∷◌, ◌++◌, Option, none, some, if◌then◌else◌, nat_eq, ◌==◌,
  is_empty,
}
use revchat.Base.Dict.{lookup}
use revchat.Base.Sorting.{sort}
use revchat.Base.Text.{Text, codes, text_eq, text_beq, has_prefix}
use revchat.Channel.Name.{trim_space}
use revchat.Json.{Json, Fields, get, as_bool, as_text, as_object, as_list}
use revchat.Reports.Time.{time_since}
use revchat.Stores.Builds.{CommitStatus, PrStatus}
use revchat.Turns.Queries.{keys}

-- `isBitbucketPR`
unfoldable pub is_bitbucket_pr : Text → Bool
unfolding has_prefix
is_bitbucket_pr url = has_prefix url (codes "https://bitbucket.org/")

-- `m[key].(map[string]any)` and `m[key].(string)`
unfoldable pub block : Text → Fields → Option Fields
unfolding get as_object
block key m = as_object (get key m)

unfoldable pub text_at : Text → Fields → Option Text
unfolding get as_text
text_at key m = as_text (get key m)

-- `branchMap`
unfoldable pub branch_map : Text → Fields → Option Fields
unfolding is_bitbucket_pr block
branch_map url pr = block (if is_bitbucket_pr url then codes "destination" else codes "base") pr

-- `branchName`: none stands for the name "unknown" with a false.
unfoldable pub branch_name : Text → Fields → Option Text
unfolding is_bitbucket_pr block text_at
branch_name url branch =
    if is_bitbucket_pr url
    then (elim (block (codes "branch") branch) [ none ↦ none | some m ↦ text_at (codes "name") m ])
    else text_at (codes "ref") branch

abbrev pub or_unknown : Option Text → Text
or_unknown none = codes "unknown"
or_unknown (some s) = s

-- `branchNameMarkdown`
unfoldable pub branch_name_markdown : Text → Fields → Text
unfolding is_bitbucket_pr branch_map branch_name
branch_name_markdown url pr =
    let prefix =
      if is_bitbucket_pr url then 10 ∷ codes ">Target branch" else 10 ∷ codes ">Base branch" in
    let name : Option Text = elim (branch_map url pr) [
      | none ↦ none
      | some m ↦ branch_name url m
    ] in
    prefix ++ codes ": `" ++ or_unknown name ++ codes "`"

-- `strings.Cut` at one character: none if it is not there.
unfoldable pub cut : ℕ → Text → Option (Text × Text)
cut sep [] = none
cut sep (c ∷ s) =
    let rest = cut sep s in
    if nat_eq c sep
    then some ([], s)
    else (elim rest [ none ↦ none | some parts ↦ some (c ∷ parts.0, parts.1) ])

-- `branchOwnerAndRepo`
unfoldable pub branch_owner_and_repo : Text → Fields → Option (Text × Text)
unfolding is_bitbucket_pr block text_at cut
branch_owner_and_repo url branch =
    elim (block (if is_bitbucket_pr url then codes "repository" else codes "repo") branch) [
      | none ↦ none
      | some m ↦ elim (text_at (codes "full_name") m) [
        | none ↦ none
        | some full_name ↦ cut b'/' full_name
      ]
    ]

abbrev pub or_nothing : Option Text → Text
or_nothing none = []
or_nothing (some s) = s

-- The last part of `PRIdentifiers`: the hash of the commit, empty if it is not there.
unfoldable pub commit_hash : Text → Fields → Text
unfolding is_bitbucket_pr block text_at
commit_hash url m =
    if is_bitbucket_pr url
    then (elim (block (codes "commit") m) [
      | none ↦ []
      | some commit ↦ or_nothing (text_at (codes "hash") commit)
    ])
    else or_nothing (text_at (codes "sha") m)

pub record Identifiers : Type 0 where
  pub owner : Text
  pub repo : Text
  pub branch : Text
  pub hash : Text

abbrev pub no_identifiers : Identifiers
no_identifiers = record { owner = []; repo = []; branch = []; hash = [] }

abbrev pub identifiers_in : Text → Fields → Option (Text × Text) → Identifiers
identifiers_in url m none = no_identifiers
identifiers_in url m (some (owner, repo)) = elim (branch_name url m) [
  | none ↦ record no_identifiers { owner = owner; repo = repo }
  | some branch ↦ record { owner = owner; repo = repo; branch = branch; hash = commit_hash url m }
]

-- `PRIdentifiers`
unfoldable pub pr_identifiers : Text → Fields → Identifiers
unfolding branch_map branch_owner_and_repo branch_name commit_hash
pr_identifiers url pr = elim (branch_map url pr) [
  | none ↦ no_identifiers
  | some m ↦ identifiers_in url m (branch_owner_and_repo url m)
]

-- The loop of `states`
unfoldable pub build_icons : List Text → List (Text × CommitStatus) → List Text
unfolding lookup text_beq
build_icons [] builds = []
build_icons (k ∷ rest) builds =
    let state : Text = elim (lookup k builds) [ none ↦ [] | some cs ↦ cs.state ] in
    let icon =
      if state == codes "SUCCESSFUL"
      then codes "large_green_circle"
      else if state == codes "INPROGRESS"
      then codes "large_yellow_circle"
      else codes "red_circle" in
    icon ∷ build_icons rest builds

-- `strings.Join`
unfoldable pub join : Text → List Text → Text
join sep [] = []
join sep (s ∷ []) = s
join sep (s ∷ t ∷ rest) = s ++ sep ++ join sep (t ∷ rest)

-- `states`, given the stored builds.
unfoldable pub states : Text → PrStatus → Text
unfolding is_bitbucket_pr build_icons sort keys join
states url status =
    let builds : List (Text × CommitStatus) = elim status.builds [ none ↦ [] | some m ↦ m ] in
    let summary = build_icons (sort (keys builds)) builds in
    if is_bitbucket_pr url && not (is_empty summary)
    then codes ", builds: :" ++ join (codes ": :") summary ++ codes ":"
    else []

-- `strings.ReplaceAll(s, ">", "&gt;")`
unfoldable pub escaped : Text → Text
escaped [] = []
escaped (c ∷ s) = let rest = escaped s in if nat_eq c b'>' then codes "&gt;" ++ rest else c ∷ rest

-- `title`: the line, and whether the pull request is a draft.
unfoldable pub title : Text → Fields → Text × Bool
unfolding get as_bool text_at trim_space escaped
title url pr =
    let draft : Bool = elim (as_bool (get (codes "draft") pr)) [ none ↦ false | some b ↦ b ] in
    let found = trim_space (or_nothing (text_at (codes "title") pr)) in
    let used = escaped (if is_empty found then trim_space url else found) in
    let prefix = 10 ∷ 10 ∷ (if draft then codes ":construction: " else []) in
    (prefix ++ codes "<" ++ url ++ codes "|*" ++ used ++ codes "*>", draft)

-- What other parts answer: the mentions of users (`BitbucketIDToSlackRef` on an account ID and a
-- name, `GitHubIDToSlackRef` on a login, a URL and a type), and `time.Parse` with RFC3339, 0 for none.
pub record Answers : Type 0 where
  pub bitbucket_id_to_slack_ref : Text → Text → Text
  pub github_id_to_slack_ref : Text → Text → Text → Text
  pub parse_rfc3339 : Text → ℕ

module _ (q : Answers) where
  -- `author`
  unfoldable pub author : Text → Fields → Text
  unfolding is_bitbucket_pr block text_at
  author url pr =
      if is_bitbucket_pr url
      then (elim (block (codes "author") pr) [
        | none ↦ []
        | some m ↦ elim (text_at (codes "account_id") m) [
          | none ↦ []
          | some id ↦
              codes " by "
              ++ q.bitbucket_id_to_slack_ref id (or_nothing (text_at (codes "display_name") m))
        ]
      ])
      else (elim (block (codes "user") pr) [
        | none ↦ []
        | some m ↦ elim (text_at (codes "login") m) [
          | none ↦ []
          | some login ↦
              let user_type : Text = elim (text_at (codes "type") m) [
                | none ↦ codes "User"
                | some t ↦ t
              ] in
              codes " by "
              ++ q.github_id_to_slack_ref login (or_nothing (text_at (codes "html_url") m))
                  user_type
        ]
      ])

  -- `times`: when it was created and updated.
  unfoldable pub times : ℕ → Text → Fields → Text × Text
  unfolding is_bitbucket_pr text_at time_since
  times now url pr =
      let suffix = if is_bitbucket_pr url then codes "on" else codes "at" in
      let since : Text → Text = λ s. time_since now (q.parse_rfc3339 s) in
      let created = or_nothing (text_at (codes "created_" ++ suffix) pr) in
      if is_empty created then (codes "unknown", []) else (
        since created,
        elim (text_at (codes "updated_" ++ suffix) pr) [ none ↦ [] | some s ↦ since s ],
      )

  -- The body of the loop of `prApprovers`: the mention of a participant who has approved.
  unfoldable pub approver : Json → Text
  unfolding as_object as_bool get block text_at
  approver p = elim (as_object p) [
    | none ↦ []
    | some participant ↦ elim (as_bool (get (codes "approved") participant)) [
      | none ↦ []
      | some approved ↦ if not approved then [] else elim (block (codes "user") participant) [
        | none ↦ []
        | some user ↦ elim (text_at (codes "account_id") user) [
          | none ↦ []
          | some id ↦ q.bitbucket_id_to_slack_ref id []
        ]
      ]
    ]
  ]

  unfoldable pub approvers : List Json → List Text
  unfolding approver
  approvers [] = []
  approvers (p ∷ rest) =
      let more = approvers rest in
      let mention = approver p in if is_empty mention then more else mention ∷ more

  -- `prApprovers`
  unfoldable pub pr_approvers : Fields → List Text
  unfolding as_list get approvers
  pr_approvers pr = elim (as_list (get (codes "participants") pr)) [
    | none ↦ []
    | some l ↦ approvers l
  ]
