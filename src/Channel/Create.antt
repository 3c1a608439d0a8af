-- ===== src/Channel/Create.antt =====
-- `CreateChannel` and `RenameChannel`: the loops over the names of a channel, and the calls of Slack
-- in pkg/slack/activities/channels.go. Logging is left out, except for the log of created channels.
use revchat.Base.{
  ℕ, zero, suc, ◌+◌, ◌/◌, ◌%◌, Bool, ◌||◌, List, [], ◌∷◌, ◌++◌, if◌then◌else◌, ltb, Option, none,
  some, ◌⊎◌, inl, inr,
}
use revchat.Base.Text.{Text, codes, has_prefix, Unicode}
use revchat.Channel.Name.{normalize_channel_name}

-- `strings.Contains`
unfoldable pub has_substring : Text → Text → Bool
unfolding has_prefix
has_substring [] part = has_prefix [] part
has_substring (c ∷ s) part = has_prefix (c ∷ s) part || has_substring s part

-- The decimal digits of a number in front of a text. A number has no more digits than itself.
unfoldable pub digits : ℕ → ℕ → Text → Text
digits zero n s = (48 + n) ∷ s
digits (suc fuel) n s =
    let more = digits fuel (n / 10) ((48 + n % 10) ∷ s) in if ltb n 10 then (48 + n) ∷ s else more

unfoldable pub decimal : ℕ → Text → Text
unfolding digits
decimal n s = digits n n s

-- The name of the `i`-th attempt: `prefix-id_title`, from the second on with `_i` behind it.
unfoldable pub channel_name : Text → ℕ → Text → ℕ → Text
unfolding decimal
channel_name prefix pr_id title i =
    let name = prefix ++ b'-' ∷ decimal pr_id (b'_' ∷ title) in
    if ltb 1 i then name ++ b'_' ∷ decimal i [] else name

-- The errors of the loops: Slack's own, by its text, or the one after the last attempt.
pub data Failure : Type 0 where
  slack_error : Text → Failure
  too_many_attempts : Failure

-- Slack's methods conversations.create and conversations.rename on the state `W` of a workspace:
-- an ID or nothing, or the text of an error.
pub record Slack (W : Type 0) : Type 0 where
  pub conversations_create : Text → Bool → W → (Text ⊎ Text) × W
  pub conversations_rename : Text → Text → W → Option Text × W

-- An entry of the log of created channels.
pub record Created : Type 0 where
  pub id : Text
  pub url : Text
  pub name : Text

-- What an activity answers: the value, or an error and whether to retry.
pub data Answer : Type 0 where
  done : Text → Answer
  retry : Text → Answer
  give_up : Text → Answer

abbrev pub name_taken : Text
name_taken = codes "name_taken"

unfoldable pub refused : Text → Answer
unfolding has_substring
refused e = if has_substring e name_taken then retry e else give_up e

module _ {W : Type 0} where
  unfoldable pub create_outcome : (Text ⊎ Text) × W → Answer × W
  unfolding refused
  create_outcome (inl id, w) = (done id, w)
  create_outcome (inr e, w) = (refused e, w)

  unfoldable pub rename_outcome : Text → Option Text × W → Answer × W
  unfolding refused
  rename_outcome id (none, w) = (done id, w)
  rename_outcome id (some e, w) = (refused e, w)

  -- What the caller goes on with: a value, another attempt, or an error.
  abbrev pub after : {R : Type 0} → (Text → W → R) → (W → R) → (Text → W → R) → Answer × W → R
  after value again error (done id, w) = value id w
  after value again error (retry e, w) = again w
  after value again error (give_up e, w) = error e w

module _ {W : Type 0} (slack : Slack W) where
  -- `activities.CreateChannel` and `activities.RenameChannel`
  unfoldable pub create_activity : Text → Bool → W → Answer × W
  unfolding create_outcome
  create_activity name private w = create_outcome (slack.conversations_create name private w)

  unfoldable pub rename_activity : Text → Text → W → Answer × W
  unfolding rename_outcome
  rename_activity id name w = rename_outcome id (slack.conversations_rename id name w)

  -- The loops, with the attempts that are left and the number of the next one.
  module _ (prefix : Text) (pr_id : ℕ) (url title : Text) where
    unfoldable pub create_attempts : Bool → ℕ → ℕ → W → (Text ⊎ Failure) × W × List Created
    unfolding create_activity channel_name
    create_attempts private zero i w = (inr too_many_attempts, w, [])
    create_attempts private (suc left) i w =
        let name = channel_name prefix pr_id title i in
        after (λ id w2. (inl id, w2, record { id = id; url = url; name = name } ∷ []))
          (λ w2. create_attempts private left (suc i) w2) (λ e w2. (inr (slack_error e), w2, []))
          (create_activity name private w)

    unfoldable pub rename_attempts : Text → ℕ → ℕ → W → Option Failure × W
    unfolding rename_activity channel_name
    rename_attempts id zero i w = (some too_many_attempts, w)
    rename_attempts id (suc left) i w =
        after (λ _ w2. (none, w2)) (λ w2. rename_attempts id left (suc i) w2)
          (λ e w2. (some (slack_error e), w2))
          (rename_activity id (channel_name prefix pr_id title i) w)

  module _ ⦃u : Unicode⦄ where
    -- `CreateChannel`, with the entries that it adds to the log of created channels.
    unfoldable pub create_channel :
        ℕ → Text → Text → ℕ → Text → Bool → W → (Text ⊎ Failure) × W × List Created
    unfolding create_attempts normalize_channel_name
    create_channel pr_id pr_title url max_len prefix private w =
        create_attempts prefix pr_id url (normalize_channel_name pr_title max_len) private 19 1 w

    -- `RenameChannel`
    unfoldable pub rename_channel : ℕ → Text → Text → Text → ℕ → Text → W → Option Failure × W
    unfolding rename_attempts normalize_channel_name
    rename_channel pr_id pr_title url id max_len prefix w =
        rename_attempts prefix pr_id url (normalize_channel_name pr_title max_len) id 19 1 w
