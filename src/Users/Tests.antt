-- ===== src/Users/Tests.antt =====
-- Runs of the users' operations, and their theorems at concrete inputs.
use revchat.Base.{ℕ, Bool, true, false, List, [], ◌∷◌, Option, none, some, ◌≡◌, refl, arith}
use revchat.Base.{get_elem?, contains, not, ◌||◌, ◌==◌, if◌then◌else◌}
use revchat.Base.Text.{text_eq}
use revchat.Users.Follow.{find_slack_user}
use revchat.Users.FollowFile.{follow_user}
use revchat.DataFile.Laws.{IsHealthy}
use revchat.Users.Followers.{follow_user-contains}
use revchat.Base.Integers.{pos}
use revchat.Base.Text.{Text, codes, plain}
use revchat.DataFile.{stored, Disk, opened, written, removed}
use revchat.Result.{ok, err, conflicting_users}
use revchat.Users.Db.{User, no_user, Users, indexed, find_user_index}
use revchat.Users.File.{
  UsersState, UsersEnv, init_users_db_if_needed, upsert_user, upsert_user-Saved,
}
use revchat.Users.Load.{indexed-IsIndexed}
use revchat.Users.Shared.{upsert-shared_name}
use revchat.Users.Ops.{Column, Fields, upsert, select}
use revchat.Users.RoundTrip.{upsert-select}
use revchat.Users.Update.{key_of}
use revchat.Users.Steps.{IsIndexed, puts}

abbrev ann : User
ann = record no_user { email = codes "ann@x.org"; slack_id = codes "U1"; real_name = codes "Ann" }

abbrev other_ann : User
other_ann = record no_user { email = codes "ann2@x.org"; real_name = codes "Ann" }

abbrev users : Users
users = indexed (ann ∷ other_ann ∷ [])

abbrev given : Fields
given = record {
  email = codes "ann2@x.org";
  real_name = [];
  bitbucket_id = [];
  github_id = [];
  slack_id = codes "U2";
  thrippy_link = [];
}

upsert-select_example :
    (user : User) × ((upsert 5 given users).0 ≡ ok user)
    × IsIndexed (upsert 5 given users).1
    × ((c : Column)
        → puts c (key_of c given) ≡ true
        → select c (key_of c given) (upsert 5 given users).1 ≡ ok user)
unfolding find_user_index indexed revchat.Base.Text.text_beq revchat.Base.Text.lower_rune
upsert-select_example =
    upsert-select 5 given users (pos 1) (indexed-IsIndexed (ann ∷ other_ann ∷ [])) refl

indexed-IsIndexed_example : IsIndexed users
indexed-IsIndexed_example = indexed-IsIndexed (ann ∷ other_ann ∷ [])

abbrev shared : Fields
shared = record given { real_name = codes "Ann" }

upsert-shared_name_example : upsert 5 shared users ≡ (err conflicting_users, users)
unfolding indexed revchat.Users.Db.find revchat.Base.Text.text_beq revchat.Base.Text.lower_rune
upsert-shared_name_example =
    upsert-shared_name 5 shared [] [] [] ann other_ann 1 refl refl refl refl

abbrev fine_disk : Disk
fine_disk = record {
  path_ok = true;
  fix_ok = true;
  open_outcome = opened;
  write_outcome = written;
  remove_outcome = removed;
}

abbrev env : UsersEnv
env = record { reading = fine_disk; writing = fine_disk; now = 5 }

abbrev started : UsersState
started = record { db = none; file = stored (ann ∷ other_ann ∷ []) }

abbrev updated_ann : User
updated_ann = record other_ann { slack_id = codes "U2"; updated = 5 }

upsert_user-Saved_example :
    (u : Users) × ((upsert_user env given started).1.db ≡ some u)
    × ((upsert_user env given started).1.file ≡ stored u.entries)
unfolding upsert_user indexed revchat.Base.Text.text_beq revchat.Base.Text.lower_rune
upsert_user-Saved_example =
    upsert_user-Saved env given started (upsert_user env given started).1 updated_ann refl

fine_disk-IsHealthy : IsHealthy fine_disk
fine_disk-IsHealthy = record {
  path_ok = refl;
  fixed = refl;
  can_open = refl;
  can_write = refl;
  can_remove = refl;
}

follow_user-contains_example :
    (new : User) × (u2 : Users) × (follow_user env (codes "U2") (codes "U1") started ≡ (
      ok new,
      record {
        db = some u2;
        file =
            if not (contains ann.followers (codes "U2"))
            then stored u2.entries
            else stored (ann ∷ other_ann ∷ []);
      },
    ))
    × (get_elem? u2.entries 0 ≡ some new)
    × ((id : Text) → contains new.followers id ≡ (contains ann.followers id || codes "U2" == id))
unfolding find_slack_user init_users_db_if_needed indexed revchat.Base.Text.text_beq
    revchat.Base.Text.lower_rune
follow_user-contains_example =
    follow_user-contains env (codes "U2") (codes "U1") started
      (record { db = some users; file = stored (ann ∷ other_ann ∷ []) }) users 0 ann refl
      fine_disk-IsHealthy refl refl
