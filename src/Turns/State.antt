-- ===== src/Turns/State.antt =====
-- `PRTurns`, and the normalization of its email addresses.
use revchat.Base.{ℕ, Bool, true, not, List, [], ◌∷◌, if◌then◌else◌, ◌==◌, nat_eq}
use revchat.Base.Dict.{put, delete}
use revchat.Base.Text.{Text, text_eq, Unicode, to_lower}

-- Times count from Go's zero time, which is 0.
abbrev pub Time : Type 0
Time = ℕ

-- `IsZero`
abbrev pub is_zero : Time → Bool
is_zero t = nat_eq t 0

-- A nil map and an empty map are both `[]`: `readTurns` makes every nil map.
pub record PrTurns : Type 0 where
  pub author : Text
  pub reviewers : List (Text × Bool)
  pub activity : List (Text × Time)
  pub approvers : List (Text × Time)
  pub frozen_at : Time
  pub frozen_by : Text

-- The zero value, which is what "{}" decodes to.
abbrev pub no_turns : PrTurns
no_turns = record {
  author = [];
  reviewers = [];
  activity = [];
  approvers = [];
  frozen_at = 0;
  frozen_by = [];
}

module _ ⦃u : Unicode⦄ where
  -- The body of a loop of `normalizeEmailAddresses` at one entry of the map. An entry that `keep`
  -- refuses is dropped instead of renamed.
  unfoldable pub visit_key {ℓ} :
      {V : Type ℓ} → (V → Bool) → List (Text × V) → Text → V → List (Text × V)
  visit_key keep m user v =
      if to_lower user == user
      then m
      else delete user (if keep v then put (to_lower user) v m else m)

  -- The loop over one map: `entries` are those still to be visited. Keys that the loop adds are in
  -- lower case, so that a visit of them changes nothing.
  unfoldable pub lower_keys {ℓ} :
      {V : Type ℓ} → (V → Bool) → List (Text × V) → List (Text × V) → List (Text × V)
  unfolding visit_key
  lower_keys keep m [] = m
  lower_keys keep m ((user, v) ∷ entries) = lower_keys keep (visit_key keep m user v) entries

  abbrev pub lower_reviewers : List (Text × Bool) → List (Text × Bool)
  lower_reviewers m = lower_keys (λ _. true) m m

  abbrev pub lower_times : List (Text × Time) → List (Text × Time)
  lower_times m = lower_keys (λ t. not (is_zero t)) m m

  -- `normalizeEmailAddresses`
  unfoldable pub normalize_email_addresses : PrTurns → PrTurns
  normalize_email_addresses t = record {
    author = to_lower t.author;
    reviewers = lower_reviewers t.reviewers;
    activity = lower_times t.activity;
    approvers = lower_times t.approvers;
    frozen_at = t.frozen_at;
    frozen_by = to_lower t.frozen_by;
  }
