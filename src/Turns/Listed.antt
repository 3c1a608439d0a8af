-- ===== src/Turns/Listed.antt =====
-- Which pull requests the walk over the turns files lists for a user.
use revchat.Base.{
  Bool, false, not, ◌||◌, ◌&&◌, List, [], ◌∷◌, ◌++◌, if◌then◌else◌, ◌==◌, is_empty, contains, All,
  true, ◌∙◌, Bool-cases, inl, inr, contains-append, ◌≡◌, refl, arith,
}
use revchat.Base.Dict.{has_key, put, lookup-put, lookup_of_not-has_key}
use revchat.Base.Text.{Text, text_eq, Unicode}
use revchat.Files.Parse.{values_of, append_to}
use revchat.Files.Lines.{has_suffix}
use revchat.Result.{Result, ok, err}
use revchat.Turns.Calls.{is_nobody}
use revchat.Turns.File.{TurnsFile}
use revchat.Turns.Ops.{remove_reviewer_from_turns}
use revchat.Turns.Scan.{
  slack_id_not_found, UserPrs, Visit, is_turns_file, pr_url_of, Selection, selected_emails,
  user_key, add_emails, visited, visit_file, walk, filtered, read_prs_per_slack_user,
}

abbrev listed_in : Text → Text → UserPrs → Bool
listed_in id url users = contains (values_of id users) url

listed-append_to :
    (key id url pr_url : Text) (users : UserPrs)
    → listed_in id url (append_to key (pr_url ∷ []) users)
      ≡ (listed_in id url users || (key == id && pr_url == url))
unfolding contains
listed-append_to key id url pr_url users = ground (
  arith,
  text_eq.equals_iff key id,
  lookup-put key id (values_of key users ++ pr_url ∷ []) users,
  contains-append (values_of key users) (pr_url ∷ []) url,
)

filtered-listed :
    (users : UserPrs) (filter : List Text) (kept : UserPrs) (id url : Text)
    → listed_in id url (filtered users filter kept) ≡ (
        if contains filter id && (has_key id users || has_suffix id slack_id_not_found)
        then listed_in id url users
        else listed_in id url kept)
unfolding filtered contains
filtered-listed users [] kept id url = refl
filtered-listed users (k ∷ rest) kept id url = ground (
  arith,
  text_eq.equals_iff k id,
  lookup-put k id (values_of k users) kept,
  filtered-listed users rest (put k (values_of k users) kept) id url,
  filtered-listed users rest kept id url,
)

not_found :
    (users : UserPrs) (id url : Text) → has_key id users ≡ false → listed_in id url users ≡ false
unfolding contains
not_found users id url h = ground (arith, lookup_of_not-has_key id users h)

module _ ⦃u : Unicode⦄ where
  -- Some address, not of nobody, has this key.
  unfoldable pub has_user : Visit → List Text → Text → Bool
  has_user v [] id = false
  has_user v (email ∷ rest) id =
      (not (is_nobody email) && user_key v email == id) || has_user v rest id

  -- The addresses that are selected for a pull request: none if its turns cannot be read.
  abbrev pub emails_or_none : Result (List Text) → List Text
  emails_or_none (ok emails) = emails
  emails_or_none (err e) = []

  -- Some turns file is that of this pull request, and a selected address has this key.
  unfoldable pub is_listed : Selection → List Visit → Text → Text → Bool
  is_listed s [] id url = false
  is_listed s (v ∷ rest) id url =
      (is_turns_file v
        && (pr_url_of v == url && has_user v (emails_or_none (selected_emails s v).0) id))
      || is_listed s rest id url

  add_emails-listed :
      (v : Visit) (emails : List Text) (users : UserPrs) (c : TurnsFile) (id url : Text)
      → listed_in id url (add_emails v emails users c).0
        ≡ (listed_in id url users || (pr_url_of v == url && has_user v emails id))
  unfolding add_emails has_user
  add_emails-listed v [] users c id url = ground arith
  add_emails-listed v (email ∷ rest) users c id url =
      let key = user_key v email in
      let found = append_to key (pr_url_of v ∷ []) users in
      let gone = (remove_reviewer_from_turns (v.removing email) email false c).1 in
      ground (
        arith,
        add_emails-listed v rest users c id url,
        add_emails-listed v rest found c id url,
        add_emails-listed v rest found gone id url,
        listed-append_to key id url (pr_url_of v) users,
      )

  visited-listed :
      (v : Visit) (users : UserPrs) (r : Result (List Text) × TurnsFile) (id url : Text)
      → listed_in id url (visited v users r).0
        ≡ (listed_in id url users || (pr_url_of v == url && has_user v (emails_or_none r.0) id))
  unfolding has_user
  visited-listed v users (ok emails, c) id url = add_emails-listed v emails users c id url
  visited-listed v users (err e, c) id url = ground arith

  -- The walk reaches its end where it can read every entry.
  walk-listed :
      (s : Selection) (visits : List Visit) (users : UserPrs)
      → All (λ v. v.unreadable ≡ false) visits
      → (found : UserPrs) × ((walk s visits users).0 ≡ ok found)
        × ((id url : Text)
            → listed_in id url found ≡ (listed_in id url users || is_listed s visits id url))
  unfolding walk is_listed visit_file
  walk-listed s [] users can_read = (users, refl, λ id url. ground arith)
  walk-listed s (v ∷ rest) users (here, can_read) = elim (Bool-cases (is_turns_file v)) [
    | inl is_file ↦
        let (found, done, exact) =
          walk-listed s rest (visited v users (selected_emails s v)).0 can_read in
        (
          found,
          rw (here, is_file, walk) done,
          λ id url.
              exact id url
              ∙ ground (arith, is_file, visited-listed v users (selected_emails s v) id url),
        )
    | inr other ↦
        let (found, done, exact) = walk-listed s rest users can_read in
        (found, rw (here, other, walk) done, λ id url. exact id url ∙ ground (arith, other))
  ]

  -- If the directory and every entry of it can be read, `ReadPRsPerSlackUser` returns no error, and
  -- lists a pull request for a user exactly if it has a turns file that can be read, an address of
  -- that user is among those that are selected in it (of those who have the turn, or of the authors
  -- and the reviewers), and the filter is empty or has the user.
  pub read_prs_per_slack_user-listed :
      (s : Selection) (filter : List Text) (visits : List Visit)
      → All (λ v. v.unreadable ≡ false) visits
      → (users : UserPrs) × ((read_prs_per_slack_user true s filter visits).0 ≡ ok users)
        × ((id url : Text)
            → contains (values_of id users) url
              ≡ ((is_empty filter || contains filter id) && is_listed s visits id url))
  unfolding read_prs_per_slack_user contains
  read_prs_per_slack_user-listed s filter visits can_read =
      let (users, done, exact) = walk-listed s visits [] can_read in
      (
        if is_empty filter then users else filtered users filter [],
        rw (done, read_prs_per_slack_user) refl,
        λ id url.
            ground
              (arith, exact id url, filtered-listed users filter [] id url, not_found users id url),
      )
