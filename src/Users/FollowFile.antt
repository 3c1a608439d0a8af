-- ===== src/Users/FollowFile.antt =====
-- `FollowUser`, `UnfollowUser` and `RemoveFollower` with the file, which is written only after a
-- change.
use revchat.Base.{Bool, true, false, List, [], some, if◌then◌else◌, nat_eq}
use revchat.Base.Text.{Text, Unicode}
use revchat.DataFile.{Content, Disk, write_json}
use revchat.Result.{Result, ok, err, Act, continue}
use revchat.Users.Db.{User, Users}
use revchat.Users.File.{UsersState, UsersEnv, answered, init_users_db_if_needed}
use revchat.Users.Follow.{follow, unfollow_user_without_lock}

-- The write behind a change in memory, where there was one.
unfoldable pub saved_if :
    Bool → Disk → Content (List User) → User → Users → Result User × UsersState
unfolding write_json
saved_if true d c user u = answered user u (write_json [] d u.entries c)
saved_if false d c user u = (ok user, record { db = some u; file = c })

module _ ⦃t : Unicode⦄ where
  unfoldable pub after_follow :
      Disk → Content (List User) → Result (User × Bool) × Users → Result User × UsersState
  unfolding saved_if
  after_follow d c (ok (user, done), u) = saved_if done d c user u
  after_follow d c (err e, u) = (err e, record { db = some u; file = c })

  unfoldable pub follow_user : UsersEnv → Text → Text → Act UsersState User
  unfolding init_users_db_if_needed after_follow follow
  follow_user env follower followed s =
      continue (init_users_db_if_needed env.reading s)
        (λ u s2. after_follow env.writing s2.file (follow env.now follower followed u))

  unfoldable pub after_unfollow :
      Disk → Content (List User) → Result User × Users → Result User × UsersState
  unfolding saved_if
  after_unfollow d c (ok user, u) =
      saved_if (if nat_eq user.updated 0 then false else true) d c user u
  after_unfollow d c (err e, u) = (err e, record { db = some u; file = c })

  unfoldable pub unfollow_user : UsersEnv → Text → Text → Act UsersState User
  unfolding init_users_db_if_needed after_unfollow unfollow_user_without_lock
  unfollow_user env follower followed s = continue (init_users_db_if_needed env.reading s) (λ u s2.
      after_unfollow env.writing s2.file (unfollow_user_without_lock env.now follower followed u))
