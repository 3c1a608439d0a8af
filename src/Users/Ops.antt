-- ===== src/Users/Ops.antt =====
-- The operations on the users in memory, and around them the file.
use revchat.Base.{
  ℕ, zero, suc, Bool, true, not, List, [], ◌∷◌, ◌++◌, none, some, if◌then◌else◌, ◌==◌, length,
  get_elem?,
}
use revchat.Base.Integers.{ℤ, pos, negsuc}
use revchat.Base.Text.{Text, codes, text_eq}
use revchat.Result.{Result, ok, err, Act, ◌>>◌, return, panicked}
use revchat.Users.Db.{User, no_user, Index, Users, bot, find, write, find_user_index}

-- The five indexed fields.
pub data Column : Type 0 where
  by_email by_real_name by_bitbucket_id by_github_id by_slack_id : Column

abbrev pub index_of : Column → Users → Index
index_of by_email u = u.email_index
index_of by_real_name u = u.name_index
index_of by_bitbucket_id u = u.bitbucket_index
index_of by_github_id u = u.github_index
index_of by_slack_id u = u.slack_index

abbrev pub with_index : Column → Index → Users → Users
with_index by_email m u = record u { email_index = m }
with_index by_real_name m u = record u { name_index = m }
with_index by_bitbucket_id m u = record u { bitbucket_index = m }
with_index by_github_id m u = record u { github_index = m }
with_index by_slack_id m u = record u { slack_index = m }

abbrev pub with_field : Column → Text → User → User
with_field by_email key user = record user { email = key }
with_field by_real_name key user = record user { real_name = key }
with_field by_bitbucket_id key user = record user { bitbucket_id = key }
with_field by_github_id key user = record user { git_hub_id = key }
with_field by_slack_id key user = record user { slack_id = key }

unfoldable pub change_at : ℕ → (User → User) → List User → List User
change_at i f [] = []
change_at zero f (user ∷ rest) = f user ∷ rest
change_at (suc i) f (user ∷ rest) = user ∷ change_at i f rest

-- `usersDB.entries[i].field = …`, which panics out of range.
unfoldable pub change : ℕ → (User → User) → Act Users (Unit {0})
unfolding get_elem? change_at
change i f u = elim (get_elem? u.entries i) [
  | none ↦ (err panicked, u)
  | some _ ↦ (ok tt, record u { entries = change_at i f u.entries })
]

unfoldable pub entry : ℕ → Act Users User
unfolding get_elem?
entry i u = elim (get_elem? u.entries i) [ none ↦ (err panicked, u) | some user ↦ (ok user, u) ]

-- `usersDB.index[key] = i`
unfoldable pub set_index : Column → Text → ℕ → Act Users (Unit {0})
unfolding write
set_index c key i u = elim (write (index_of c u) key (pos i)) [
  | none ↦ (err panicked, u)
  | some m ↦ (ok tt, with_index c m u)
]

-- The update of one field in `UpsertUser`, where it is not empty.
abbrev pub is_indexed : Column → Text → Bool
is_indexed by_email key = not (key == bot)
is_indexed _ key = true

unfoldable pub set_column : Column → Text → ℕ → Act Users (Unit {0})
unfolding change set_index
set_column c key i = if key == [] then return tt else (do
  change i (with_field c key)
  (if is_indexed c key then set_index c key i else return tt))

unfoldable pub set_thrippy_link : Text → ℕ → Act Users (Unit {0})
unfolding change
set_thrippy_link link i =
    if link == []
    then return tt
    else change i (λ user. record user { thrippy_link = if link == codes "X" then [] else link })

-- What `UpsertUser` is called with.
pub record Fields : Type 0 where
  pub email : Text
  pub real_name : Text
  pub bitbucket_id : Text
  pub github_id : Text
  pub slack_id : Text
  pub thrippy_link : Text

-- The changes of `UpsertUser` to the entry of a user.
unfoldable pub update_entry : ℕ → Fields → ℕ → Act Users User
unfolding change entry set_column set_thrippy_link
update_entry now f i = do
  change i (λ user. record user { updated = now })
  set_column by_email f.email i
  set_column by_real_name f.real_name i
  set_column by_bitbucket_id f.bitbucket_id i
  set_column by_github_id f.github_id i
  set_column by_slack_id f.slack_id i
  set_thrippy_link f.thrippy_link i
  entry i

-- The entry to change, a new one if none was found.
unfoldable pub upsert_at : ℕ → Fields → ℤ → Act Users User
unfolding update_entry length
upsert_at now f (pos i) u = update_entry now f i u
upsert_at now f (negsuc _) u =
    update_entry now f (length u.entries)
      (record u { entries = u.entries ++ ((record no_user { created = now }) ∷ []) })

-- `UpsertUser` between the read and the write of the file.
unfoldable pub upsert : ℕ → Fields → Act Users User
unfolding find_user_index upsert_at
upsert now f u =
    elim (find_user_index u f.email f.real_name f.bitbucket_id f.github_id f.slack_id) [
      | ok i ↦ upsert_at now f i u
      | err e ↦ (err e, u)
    ]

-- `SelectUser` in memory, for the five index types.
unfoldable pub select : Column → Text → Users → Result User
unfolding find get_elem?
select c id u = elim (find (index_of c u) id) [
  | none ↦ ok no_user
  | some (negsuc _) ↦ ok no_user
  | some (pos i) ↦ elim (get_elem? u.entries i) [ none ↦ err panicked | some user ↦ ok user ]
]
