-- ===== src/Users/Db.antt =====
-- The state: `User`, `Users`, `findUserIndex`, and the indexes that `readUsersFile` builds.
use revchat.Base.{ℕ, suc, Bool, ◌||◌, List, [], ◌∷◌, Option, none, some, if◌then◌else◌, ◌==◌}
use revchat.Base.Dict.{lookup, put, has_key}
use revchat.Base.Integers.{ℤ, pos, negsuc, int_eq}
use revchat.Base.Text.{Text, codes, text_eq, Unicode, to_lower}
use revchat.Result.{Result, ok, err, conflicting_users}

pub record User : Type 0 where
  pub email : Text
  pub bitbucket_id : Text
  pub git_hub_id : Text
  pub slack_id : Text
  pub thrippy_link : Text
  pub real_name : Text
  pub followers : List Text
  pub created : ℕ
  pub updated : ℕ
  pub deleted : ℕ

-- `User{}`
abbrev pub no_user : User
no_user = record {
  email = [];
  bitbucket_id = [];
  git_hub_id = [];
  slack_id = [];
  thrippy_link = [];
  real_name = [];
  followers = [];
  created = 0;
  updated = 0;
  deleted = 0;
}

-- `map[string]int`: nil, or made.
pub data Index : Type 0 where
  nil_map : Index
  made : List (Text × ℤ) → Index

pub record Users : Type 0 where
  pub entries : List User
  pub email_index : Index
  pub bitbucket_index : Index
  pub github_index : Index
  pub slack_index : Index
  pub name_index : Index

abbrev pub missing : ℤ
missing = negsuc 0

abbrev pub bot : Text
bot = codes "bot"

unfoldable pub find : Index → Text → Option ℤ
unfolding lookup
find nil_map key = none
find (made m) key = lookup key m

-- `m[key] = i`, which panics for nil.
unfoldable pub write : Index → Text → ℤ → Option Index
unfolding put
write nil_map key i = none
write (made m) key i = some (made (put key i m))

-- One of the five steps of `findUserIndex`: the index so far, and the one that was found. In the
-- first the index so far is -1, so that there is no conflict.
unfoldable pub combine : ℤ → Option ℤ → Result ℤ
unfolding int_eq
combine i none = ok i
combine (negsuc _) (some j) = ok j
combine (pos n) (some j) = if int_eq (pos n) j then ok j else err conflicting_users

abbrev pub and_then : Result ℤ → Option ℤ → Result ℤ
and_then (ok i) o = combine i o
and_then (err e) o = err e

-- `findUserIndex`
unfoldable pub find_user_index : Users → Text → Text → Text → Text → Text → Result ℤ
unfolding find combine
find_user_index u email real_name bitbucket_id github_id slack_id =
    and_then
      (and_then
        (and_then
          (and_then (combine missing (find u.email_index email)) (find u.name_index real_name))
          (find u.bitbucket_index bitbucket_id))
        (find u.github_index github_id))
      (find u.slack_index slack_id)

-- The indexes of the loop of `readUsersFile`.
pub record Maps : Type 0 where
  pub emails : List (Text × ℤ)
  pub bitbuckets : List (Text × ℤ)
  pub githubs : List (Text × ℤ)
  pub slacks : List (Text × ℤ)
  pub names : List (Text × ℤ)

abbrev pub no_maps : Maps
no_maps = record { emails = []; bitbuckets = []; githubs = []; slacks = []; names = [] }

abbrev pub put_unless : Bool → Text → ℤ → List (Text × ℤ) → List (Text × ℤ)
put_unless skip key i m = if skip then m else put key i m

module _ ⦃t : Unicode⦄ where
  unfoldable pub index_user : ℕ → User → Maps → Maps
  unfolding to_lower put has_key
  index_user i user m = record {
    emails =
        put_unless (user.email == [] || user.email == bot) (to_lower user.email) (pos i) m.emails;
    bitbuckets = put_unless (user.bitbucket_id == []) user.bitbucket_id (pos i) m.bitbuckets;
    githubs = put_unless (user.git_hub_id == []) user.git_hub_id (pos i) m.githubs;
    slacks = put_unless (user.slack_id == []) user.slack_id (pos i) m.slacks;
    names =
        put_unless (user.real_name == []) user.real_name
          (if has_key user.real_name m.names then missing else pos i) m.names;
  }

  unfoldable pub index_users : ℕ → List User → Maps → Maps
  unfolding index_user
  index_users i [] m = m
  index_users i (user ∷ rest) m = index_users (suc i) rest (index_user i user m)

  unfoldable pub lower_email : User → User
  unfolding to_lower
  lower_email user =
      if user.email == [] || user.email == bot
      then user
      else (record user { email = to_lower user.email })

  unfoldable pub lower_emails : List User → List User
  unfolding lower_email
  lower_emails [] = []
  lower_emails (user ∷ rest) = lower_email user ∷ lower_emails rest

  -- The part of `readUsersFile` behind the decoder.
  unfoldable pub indexed : List User → Users
  unfolding index_users lower_emails
  indexed entries =
      let m = index_users 0 entries no_maps in
      record {
        entries = lower_emails entries;
        email_index = made m.emails;
        bitbucket_index = made m.bitbuckets;
        github_index = made m.githubs;
        slack_index = made m.slacks;
        name_index = made m.names;
      }
