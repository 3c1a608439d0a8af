-- ===== src/Users/Followers.antt =====
-- What following does to the followers.
use revchat.Base.{
  ℕ, zero, suc, Bool, true, false, not, if◌then◌else◌, ◌||◌, List, [], ◌∷◌, ◌++◌, some, ◌==◌,
  get_elem?, contains, contains-append, ◌≡◌, refl, ◌∙◌, arith, Bool-cases, inl, inr,
}
use revchat.Base.Integers.{pos}
use revchat.Base.Sorting.{contains-sort}
use revchat.Base.Text.{Text, text_eq, Unicode}
use revchat.DataFile.{Content, Disk, stored}
use revchat.DataFile.Laws.{IsHealthy, write_json-stored}
use revchat.Users.File.{UsersState, UsersEnv, init_users_db_if_needed}
use revchat.Users.FollowFile.{saved_if, after_follow, follow_user}
use revchat.Result.{ok}
use revchat.Users.Db.{User, Users}
use revchat.Users.Follow.{find_slack_user, with_follower, follow_found, follow}
use revchat.Users.Ops.{change_at}

get_elem?-change_at :
    (i : ℕ) (f : User → User) (l : List User) (user : User)
    → get_elem? l i ≡ some user
    → get_elem? (change_at i f l) i ≡ some (f user)
unfolding change_at
get_elem?-change_at i f [] user e = ground arith
get_elem?-change_at zero f (x ∷ rest) user e = ground arith
get_elem?-change_at (suc i) f (x ∷ rest) user e = get_elem?-change_at i f rest user e

contains-with_follower :
    (now : ℕ) (follower : Text) (user : User) (id : Text)
    → contains (with_follower now follower user).followers id
      ≡ (contains user.followers id || follower == id)
unfolding contains
contains-with_follower now follower user id =
    contains-sort id (user.followers ++ (follower ∷ []))
    ∙ contains-append user.followers (follower ∷ []) id
    ∙ ground arith

already-contains :
    (l : List Text) (follower id : Text)
    → contains l follower ≡ true
    → contains l id ≡ (contains l id || follower == id)
already-contains l follower id h = ground (arith, text_eq.equals_iff follower id)

-- What `follow` does in memory.
follow-contains :
    (now : ℕ) (follower followed : Text) (u : Users) (i : ℕ) (user : User)
    → find_slack_user u followed ≡ ok (pos i)
    → get_elem? u.entries i ≡ some user
    → (new : User) × (u2 : Users) × (follow now follower followed u
        ≡ (ok (new, not (contains user.followers follower)), u2))
      × (get_elem? u2.entries i ≡ some new)
      × ((id : Text) → contains new.followers id ≡ (contains user.followers id || follower == id))
unfolding follow follow_found
follow-contains now follower followed u i user e g =
    elim (Bool-cases (contains user.followers follower)) [
      | inl y ↦
          rw (e, g, y, follow, follow_found)
            (user, u, refl, g, λ id. already-contains user.followers follower id y)
      | inr n ↦
          rw (e, g, n, follow, follow_found)
            (
              with_follower now follower user,
              record u { entries = change_at i (with_follower now follower) u.entries },
              refl,
              get_elem?-change_at i (with_follower now follower) u.entries user g,
              λ id. contains-with_follower now follower user id,
            )
    ]

saved_if-written :
    (b : Bool) (d : Disk) (c : Content (List User)) (user : User) (u : Users)
    → IsHealthy d
    → saved_if b d c user u
      ≡ (ok user, record { db = some u; file = if b then stored u.entries else c })
unfolding saved_if
saved_if-written true d c user u h = rw (write_json-stored [] h u.entries c) refl
saved_if-written false d c user u h = refl

-- If the users are in memory or can be read, the Slack ID is that of a user and the file can be
-- written, then `FollowUser` returns no error: the followers of the user that is returned, and kept
-- in memory, are those of before and the new one. If the follower is new, then the file holds the
-- users in memory afterwards, else it is not written.
pub follow_user-contains :
    ⦃t : Unicode⦄ (env : UsersEnv) (follower followed : Text) (s s2 : UsersState) (u : Users)
    (i : ℕ) (user : User)
    → init_users_db_if_needed env.reading s ≡ (ok u, s2)
    → IsHealthy env.writing
    → find_slack_user u followed ≡ ok (pos i)
    → get_elem? u.entries i ≡ some user
    → (new : User) × (u2 : Users) × (follow_user env follower followed s ≡ (
      ok new,
      record {
        db = some u2;
        file = if not (contains user.followers follower) then stored u2.entries else s2.file;
      },
    ))
      × (get_elem? u2.entries i ≡ some new)
      × ((id : Text) → contains new.followers id ≡ (contains user.followers id || follower == id))
unfolding follow_user after_follow
follow_user-contains env follower followed s s2 u i user read h e g =
    let (new, u2, done, there, exact) = follow-contains env.now follower followed u i user e g in
    (
      new,
      u2,
      rw (read, follow_user, done, after_follow)
          (saved_if-written (not (contains user.followers follower)) env.writing s2.file new u2 h),
      there,
      exact,
    )
