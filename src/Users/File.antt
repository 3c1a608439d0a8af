-- ===== src/Users/File.antt =====
-- The users in memory and their file: `initUsersDBIfNeeded`, `readUsersFile`, `writeUsersFile`, and
-- the operations around them. The users in memory outlive a failed write.
use revchat.Base.{
  ℕ, Bool, true, false, List, [], Option, none, some, if◌then◌else◌, ◌≡◌, refl, subst,
}
use revchat.Base.Text.{Text, Unicode}
use revchat.DataFile.{
  Content, stored, Disk, Loaded, WriteOutcome, written, not_opened, truncated, torn, overwrite,
  data_path, fix_empty_json_file, create, value, gone, garbled, load, write_json,
}
use revchat.Result.{Result, ok, err, Act, continue, decode_failed, path_failed}
use revchat.Users.Db.{User, Users, nil_map, indexed}
use revchat.Users.Ops.{Column, Fields, upsert, select}

-- `usersDB` and users.json
pub record UsersState : Type 0 where
  pub db : Option Users
  pub file : Content (List User)

-- What one call is given by its surroundings.
pub record UsersEnv : Type 0 where
  pub reading : Disk
  pub writing : Disk
  pub now : ℕ

-- The users without indexes, for a file that is not there.
abbrev pub no_users : Users
no_users = record {
  entries = [];
  email_index = nil_map;
  bitbucket_index = nil_map;
  github_index = nil_map;
  slack_index = nil_map;
  name_index = nil_map;
}

abbrev installed : Result Users × Content (List User) → Result Users × UsersState
installed (ok u, c) = (ok u, record { db = some u; file = c })
installed (err e, c) = (err e, record { db = none; file = c })

-- The answer of `UpsertUser` behind the write.
abbrev pub answered :
    User → Users → Result (Unit {0}) × Content (List User) → Result User × UsersState
answered user u (ok _, c) = (ok user, record { db = some u; file = c })
answered user u (err e, c) = (err e, record { db = some u; file = c })

-- `writeUsersFile` behind a change in memory, where that succeeded.
unfoldable pub saved : Disk → Content (List User) → Result User × Users → Result User × UsersState
unfolding write_json
saved d c (ok user, u) = answered user u (write_json [] d u.entries c)
saved d c (err e, u) = (err e, record { db = some u; file = c })

module _ ⦃t : Unicode⦄ where
  unfoldable pub from_loaded : Loaded (List User) → Act (Content (List User)) Users
  unfolding indexed
  from_loaded (value entries) c = (ok (indexed entries), c)
  from_loaded gone c = (ok no_users, c)
  from_loaded garbled c = (err decode_failed, c)

  unfoldable pub read_users_file : Disk → Act (Content (List User)) Users
  unfolding load from_loaded
  read_users_file d c = continue (load [] d c) from_loaded

  unfoldable pub init_users_db_if_needed : Disk → Act UsersState Users
  unfolding read_users_file
  init_users_db_if_needed d s = elim s.db [
    | some u ↦ (ok u, s)
    | none ↦ installed (read_users_file d s.file)
  ]

  -- `UpsertUser`
  unfoldable pub upsert_user : UsersEnv → Fields → Act UsersState User
  unfolding init_users_db_if_needed upsert saved
  upsert_user env f s =
      continue (init_users_db_if_needed env.reading s)
        (λ u s2. saved env.writing s2.file (upsert env.now f u))

  -- `SelectUser`, for the five index types.
  unfoldable pub select_user : UsersEnv → Column → Text → Act UsersState User
  unfolding init_users_db_if_needed select
  select_user env c id s =
      continue (init_users_db_if_needed env.reading s) (λ u s2. (select c id u, s2))

-- Memory and file agree.
abbrev pub Saved : UsersState → Type 0
Saved s = (u : Users) × (s.db ≡ some u) × (s.file ≡ stored u.entries)

abbrev pub IfOk : {A : Type 0} → (UsersState → Type 0) → Result A × UsersState → Type 0
IfOk P (ok a, s) = P s
IfOk P (err e, s) = Unit

continue-IfOk :
    {A B : Type 0} (P : UsersState → Type 0) (r : Result A × UsersState) (k : A → Act UsersState B)
    → ((a : A) (s : UsersState) → IfOk P (k a s))
    → IfOk P (continue r k)
continue-IfOk P (ok a, s) k h = h a s
continue-IfOk P (err e, s) k h = tt

overwrite-Saved :
    (o : WriteOutcome) (user : User) (u : Users) (c : Content (List User))
    → IfOk Saved (answered user u (overwrite o u.entries c))
unfolding overwrite
overwrite-Saved written user u c = (u, refl, refl)
overwrite-Saved not_opened user u c = tt
overwrite-Saved truncated user u c = tt
overwrite-Saved torn user u c = tt

after_path :
    (b : Bool) (o : WriteOutcome) (user : User) (u : Users) (c1 c2 : Content (List User))
    → IfOk Saved (
        answered user u (
          continue {B = Unit {0}}
            (if b then (ok (tt {0}), c1) else (err path_failed, c2))
            (λ _ c. overwrite o u.entries c)))
after_path true o user u c1 c2 = overwrite-Saved o user u c1
after_path false o user u c1 c2 = tt

written_stored :
    (d : Disk) (user : User) (u : Users) (c : Content (List User))
    → IfOk Saved (answered user u (write_json [] d u.entries c))
unfolding write_json data_path
written_stored d user u c =
    after_path d.path_ok d.write_outcome user u (fix_empty_json_file [] d.fix_ok (create [] c)) c

saved-Saved :
    (d : Disk) (c : Content (List User)) (r : Result User × Users) → IfOk Saved (saved d c r)
unfolding saved
saved-Saved d c (ok user, u) = written_stored d user u c
saved-Saved d c (err e, u) = tt

module _ ⦃t : Unicode⦄ where
  upsert_user-IfOk :
      (env : UsersEnv) (f : Fields) (s : UsersState) → IfOk Saved (upsert_user env f s)
  unfolding upsert_user
  upsert_user-IfOk env f s =
      continue-IfOk Saved (init_users_db_if_needed env.reading s) _
        (λ u s2. saved-Saved env.writing s2.file (upsert env.now f u))

  -- Whenever `UpsertUser` returns no error, the file holds exactly the users that are in memory,
  -- whatever both held before.
  pub upsert_user-Saved :
      (env : UsersEnv) (f : Fields) (s s2 : UsersState) (user : User)
      → upsert_user env f s ≡ (ok user, s2)
      → (u : Users) × (s2.db ≡ some u) × (s2.file ≡ stored u.entries)
  upsert_user-Saved env f s s2 user e = subst (IfOk Saved) e (upsert_user-IfOk env f s)
