-- ===== src/Users/Load.antt =====
-- The indexes that are built from the file.
use revchat.Base.{
  ℕ, suc, ◌+◌, ◌≤◌, ◌<◌, Bool, true, false, List, [], ◌∷◌, some, ◌==◌, length, ◌≡◌, refl, sym, ◌∙◌,
  arith, Bool-cases, inl, inr,
}
use revchat.Base.Dict.{lookup, lookup-put}
use revchat.Base.Integers.{ℤ, pos}
use revchat.Base.Text.{Text, text_eq, Unicode}
use revchat.Users.Db.{
  made, User, Maps, no_maps, find, put_unless, index_user, index_users, lower_emails, indexed,
}
use revchat.Users.Ops.{
  Column, by_email, by_real_name, by_bitbucket_id, by_github_id, by_slack_id, index_of,
}
use revchat.Users.Steps.{IsIndexed}

-- No position in the map is behind the last of so many entries.
InRange : ℕ → List (Text × ℤ) → Type 0
InRange l m = (key : Text) (n : ℕ) → lookup key m ≡ some (pos n) → n < l

record AllInRange (l : ℕ) (m : Maps) : Type 0 where
  emails_in : InRange l m.emails
  bitbuckets_in : InRange l m.bitbuckets
  githubs_in : InRange l m.githubs
  slacks_in : InRange l m.slacks
  names_in : InRange l m.names

unwrap : (v : ℤ) (n : ℕ) → some v ≡ some (pos n) → v ≡ pos n
unwrap v n e = ground arith

put_unless-InRange :
    (l : ℕ) (skip : Bool) (key : Text) (v : ℤ) (m : List (Text × ℤ))
    → ((n : ℕ) → v ≡ pos n → n < l)
    → InRange l m
    → InRange l (put_unless skip key v m)
unfolding InRange
put_unless-InRange l true key v m hv h j n e = h j n e
put_unless-InRange l false key v m hv h j n e =
    let e2 = sym (lookup-put key j v m) ∙ e in
    elim (Bool-cases (key == j)) [
      | inl y ↦ hv n (unwrap v n (sym (rw y refl) ∙ e2))
      | inr other ↦ h j n (sym (rw other refl) ∙ e2)
    ]

module _ ⦃t : Unicode⦄ where
  length-lower_emails : (l : List User) → length (lower_emails l) ≡ length l
  unfolding lower_emails
  length-lower_emails [] = refl
  length-lower_emails (user ∷ rest) = omega (arith, length-lower_emails rest)

  index_user-AllInRange :
      (l i : ℕ) (user : User) (m : Maps)
      → i < l
      → AllInRange l m
      → AllInRange l (index_user i user m)
  unfolding index_user
  index_user-AllInRange l i user m lt h =
      let here : (n : ℕ) → pos i ≡ pos n → n < l = λ n e. ground arith in
      record {
        emails_in = put_unless-InRange l _ _ (pos i) m.emails here h.emails_in;
        bitbuckets_in = put_unless-InRange l _ _ (pos i) m.bitbuckets here h.bitbuckets_in;
        githubs_in = put_unless-InRange l _ _ (pos i) m.githubs here h.githubs_in;
        slacks_in = put_unless-InRange l _ _ (pos i) m.slacks here h.slacks_in;
        names_in = put_unless-InRange l _ _ _ m.names (λ n e. ground arith) h.names_in;
      }

  index_users-AllInRange :
      (l i : ℕ) (rest : List User) (m : Maps)
      → i + length rest ≤ l
      → AllInRange l m
      → AllInRange l (index_users i rest m)
  unfolding index_users
  index_users-AllInRange l i [] m le h = h
  index_users-AllInRange l i (user ∷ rest) m le h =
      index_users-AllInRange l (suc i) rest (index_user i user m) (omega (arith, le))
        (index_user-AllInRange l i user m (omega (arith, le)) h)

  built-AllInRange :
      (entries : List User) → AllInRange (length entries) (index_users 0 entries no_maps)
  unfolding InRange lookup
  built-AllInRange entries =
      let none_found : InRange (length entries) [] = λ key n e. ground arith in
      index_users-AllInRange (length entries) 0 entries no_maps (omega arith) (record {
        emails_in = none_found;
        bitbuckets_in = none_found;
        githubs_in = none_found;
        slacks_in = none_found;
        names_in = none_found;
      })

  indexed-lt :
      (c : Column) (entries : List User) (key : Text) (n : ℕ)
      → find (index_of c (indexed entries)) key ≡ some (pos n)
      → n < length entries
  unfolding indexed InRange find
  indexed-lt by_email entries key n e = (built-AllInRange entries).emails_in key n e
  indexed-lt by_real_name entries key n e = (built-AllInRange entries).names_in key n e
  indexed-lt by_bitbucket_id entries key n e = (built-AllInRange entries).bitbuckets_in key n e
  indexed-lt by_github_id entries key n e = (built-AllInRange entries).githubs_in key n e
  indexed-lt by_slack_id entries key n e = (built-AllInRange entries).slacks_in key n e

  indexed-made :
      (c : Column) (entries : List User)
      → (m : List (Text × ℤ)) × (index_of c (indexed entries) ≡ made m)
  unfolding indexed
  indexed-made by_email entries = (_, refl)
  indexed-made by_real_name entries = (_, refl)
  indexed-made by_bitbucket_id entries = (_, refl)
  indexed-made by_github_id entries = (_, refl)
  indexed-made by_slack_id entries = (_, refl)

  length-indexed :
      (entries : List User) (n : ℕ) → n < length entries → n < length (indexed entries).entries
  unfolding indexed
  length-indexed entries n h = omega (arith, h, length-lower_emails entries)

  -- The indexes that are built from any file are made, and hold no position behind the last entry.
  pub indexed-IsIndexed : (entries : List User) → IsIndexed (indexed entries)
  indexed-IsIndexed entries = record {
    is_made = λ c. indexed-made c entries;
    in_range = λ c key n e. length-indexed entries n (indexed-lt c entries key n e);
  }
