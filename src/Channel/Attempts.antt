-- ===== src/Channel/Attempts.antt =====
-- Which name the loops of channel creation and renaming end with.
use revchat.Base.{
  ℕ, zero, suc, ◌+◌, Bool, true, false, [], ◌∷◌, none, some, ◌≡◌, refl, ap, ap₂, ◌∙◌, arith, inl,
  inr,
}
use revchat.Base.Text.{Text, Unicode}
use revchat.Channel.Name.{normalize_channel_name}
use revchat.Channel.Create.{
  has_substring, channel_name, slack_error, too_many_attempts, Slack, name_taken, done, retry,
  give_up, refused, create_outcome, rename_outcome, create_activity, rename_activity,
  create_attempts, rename_attempts, create_channel, rename_channel,
}

-- Slack refuses a taken name: an error that says `name_taken`, and nothing is changed.
pub record Refuses {W : Type 0} (slack : Slack W) (taken : W → Text → Bool) : Type 0 where
  pub create_refused :
      (name : Text) (private : Bool) (w : W)
      → taken w name ≡ true
      → (e : Text) × (has_substring e name_taken ≡ true)
        × (slack.conversations_create name private w ≡ (inr e, w))
  pub rename_refused :
      (id name : Text) (w : W)
      → taken w name ≡ true
      → (e : Text) × (has_substring e name_taken ≡ true)
        × (slack.conversations_rename id name w ≡ (some e, w))

-- The names of the attempts from `i` to before `j` are all taken.
abbrev pub AllTaken : (Text → Bool) → (ℕ → Text) → ℕ → ℕ → Type 0
AllTaken taken name i zero = Unit
AllTaken taken name i (suc n) = (taken (name i) ≡ true) × AllTaken taken name (suc i) n

module _ {W : Type 0} (slack : Slack W) where
  create_activity-ok :
      (name : Text) (private : Bool) (w w2 : W) (id : Text)
      → slack.conversations_create name private w ≡ (inl id, w2)
      → create_activity slack name private w ≡ (done id, w2)
  unfolding create_activity create_outcome
  create_activity-ok name private w w2 id run = ap create_outcome run

  create_activity-refused :
      (name : Text) (private : Bool) (w w2 : W) (e : Text)
      → slack.conversations_create name private w ≡ (inr e, w2)
      → create_activity slack name private w ≡ (refused e, w2)
  unfolding create_activity create_outcome
  create_activity-refused name private w w2 e run = ap create_outcome run

  rename_activity-ok :
      (id name : Text) (w w2 : W)
      → slack.conversations_rename id name w ≡ (none, w2)
      → rename_activity slack id name w ≡ (done id, w2)
  unfolding rename_activity rename_outcome
  rename_activity-ok id name w w2 run = ap (rename_outcome id) run

  rename_activity-refused :
      (id name : Text) (w w2 : W) (e : Text)
      → slack.conversations_rename id name w ≡ (some e, w2)
      → rename_activity slack id name w ≡ (refused e, w2)
  unfolding rename_activity rename_outcome
  rename_activity-refused id name w w2 e run = ap (rename_outcome id) run

refused-taken : (e : Text) → has_substring e name_taken ≡ true → refused e ≡ retry e
unfolding refused
refused-taken e says = rw says refl

refused-other : (e : Text) → has_substring e name_taken ≡ false → refused e ≡ give_up e
unfolding refused
refused-other e says = rw says refl

module _ {W : Type 0} {slack : Slack W} {taken : W → Text → Bool}
    (slack_refuses : Refuses slack taken) (prefix : Text) (pr_id : ℕ) (url title : Text) where
  create_attempts-taken :
      (private : Bool) (n left t i j : ℕ) (w : W)
      → t ≡ n + left
      → j ≡ n + i
      → AllTaken (taken w) (channel_name prefix pr_id title) i n
      → create_attempts slack prefix pr_id url title private t i w
        ≡ create_attempts slack prefix pr_id url title private left j w
  unfolding create_attempts
  create_attempts-taken private zero left t i j w e f h =
      let fewer : t ≡ left = omega (arith, e) in
      let next : i ≡ j = omega (arith, f) in
      ap₂ (λ a b. create_attempts slack prefix pr_id url title private a b w) fewer next
  create_attempts-taken private (suc n) left zero i j w e f h = absurd (omega (arith, e))
  create_attempts-taken private (suc n) left (suc t) i j w e f h =
      let (m, says, run) =
        slack_refuses.create_refused (channel_name prefix pr_id title i) private w h.0 in
      rw
        (
          create_activity-refused slack (channel_name prefix pr_id title i) private w w m run,
          refused-taken m says,
          create_attempts,
        )
        (create_attempts-taken private n left t (suc i) j w (omega (arith, e)) (omega (arith, f))
          h.1)

  rename_attempts-taken :
      (id : Text) (n left t i j : ℕ) (w : W)
      → t ≡ n + left
      → j ≡ n + i
      → AllTaken (taken w) (channel_name prefix pr_id title) i n
      → rename_attempts slack prefix pr_id url title id t i w
        ≡ rename_attempts slack prefix pr_id url title id left j w
  unfolding rename_attempts
  rename_attempts-taken id zero left t i j w e f h =
      let fewer : t ≡ left = omega (arith, e) in
      let next : i ≡ j = omega (arith, f) in
      ap₂ (λ a b. rename_attempts slack prefix pr_id url title id a b w) fewer next
  rename_attempts-taken id (suc n) left zero i j w e f h = absurd (omega (arith, e))
  rename_attempts-taken id (suc n) left (suc t) i j w e f h =
      let (m, says, run) =
        slack_refuses.rename_refused id (channel_name prefix pr_id title i) w h.0 in
      rw
        (
          rename_activity-refused slack id (channel_name prefix pr_id title i) w w m run,
          refused-taken m says,
          rename_attempts,
        )
        (rename_attempts-taken id n left t (suc i) j w (omega (arith, e)) (omega (arith, f)) h.1)

module _ ⦃u : Unicode⦄ {W : Type 0} {slack : Slack W} {taken : W → Text → Bool}
    (slack_refuses : Refuses slack taken) (pr_id : ℕ) (pr_title url : Text) (max_len : ℕ)
    (prefix : Text) (w : W) where
  -- The name of the `i`-th attempt.
  abbrev pub name_at : ℕ → Text
  name_at i = channel_name prefix pr_id (normalize_channel_name pr_title max_len) i

  -- If Slack refuses taken names, and of the 19 names to try those before one are taken, then the
  -- channel is created by that name: the ID that Slack gives is returned, and the log of created
  -- channels has the ID, the PR and the name.
  pub create_channel-first_free :
      (private : Bool) (before after : ℕ)
      → before + suc after ≡ 19
      → AllTaken (taken w) name_at 1 before
      → (id : Text) (w2 : W)
      → slack.conversations_create (name_at (suc before)) private w ≡ (inl id, w2)
      → create_channel slack pr_id pr_title url max_len prefix private w
        ≡ (inl id, w2, record { id = id; url = url; name = name_at (suc before) } ∷ [])
  unfolding create_channel create_attempts
  create_channel-first_free private before after e all id w2 run =
      create_attempts-taken slack_refuses prefix pr_id url (normalize_channel_name pr_title max_len)
        private before (suc after) 19 1 (suc before) w (omega (arith, e)) (omega arith) all
      ∙ (rw (create_activity-ok slack (name_at (suc before)) private w w2 id run, create_attempts)
          refl)

  -- If Slack refuses taken names and all 19 names are taken, then no channel is created, and the
  -- error is the one for too many attempts.
  pub create_channel-AllTaken :
      (private : Bool)
      → AllTaken (taken w) name_at 1 19
      → create_channel slack pr_id pr_title url max_len prefix private w
        ≡ (inr too_many_attempts, w, [])
  unfolding create_channel create_attempts
  create_channel-AllTaken private all =
      create_attempts-taken slack_refuses prefix pr_id url (normalize_channel_name pr_title max_len)
        private 19 0 19 1 20 w (omega arith) (omega arith) all

  -- If Slack refuses taken names, and of the 19 names to try those before one are taken, then the
  -- channel is renamed to that name, and an error of Slack's that does not say that the name is
  -- taken is returned at once.
  rename_channel-first_free :
      (id : Text) (before after : ℕ)
      → before + suc after ≡ 19
      → AllTaken (taken w) name_at 1 before
      → (w2 : W)
      → ((slack.conversations_rename id (name_at (suc before)) w ≡ (none, w2))
          → rename_channel slack pr_id pr_title url id max_len prefix w ≡ (none, w2))
        × ((e : Text)
            → has_substring e name_taken ≡ false
            → (slack.conversations_rename id (name_at (suc before)) w ≡ (some e, w2))
            → rename_channel slack pr_id pr_title url id max_len prefix w
              ≡ (some (slack_error e), w2))
  unfolding rename_channel rename_attempts
  rename_channel-first_free id before after e all w2 =
      let reached =
        rename_attempts-taken slack_refuses prefix pr_id url
          (normalize_channel_name pr_title max_len) id before (suc after) 19 1 (suc before) w
          (omega (arith, e)) (omega arith) all in
      (
        (λ run.
            reached
            ∙ (rw (rename_activity-ok slack id (name_at (suc before)) w w2 run, rename_attempts)
                refl)),
        (λ m says run.
            reached
            ∙ (rw
                (
                  rename_activity-refused slack id (name_at (suc before)) w w2 m run,
                  refused-other m says,
                  rename_attempts,
                )
                refl)),
      )
