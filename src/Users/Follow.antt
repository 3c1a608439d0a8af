-- ===== src/Users/Follow.antt =====
-- `FollowUser`, `UnfollowUser` and `RemoveFollower` in memory.
use revchat.Base.{
  ℕ, zero, suc, Bool, true, false, List, [], ◌∷◌, ◌++◌, none, some, if◌then◌else◌, ◌==◌, length,
  get_elem?, contains,
}
use revchat.Base.Integers.{ℤ, pos, negsuc}
use revchat.Base.Sorting.{sort}
use revchat.Base.Text.{Text, text_eq}
use revchat.Result.{Result, ok, err, Act, continue, panicked}
use revchat.Users.Db.{User, no_user, Users, find_user_index}
use revchat.Users.Ops.{change_at, change, entry}

-- The one user with a Slack ID.
unfoldable pub find_slack_user : Users → Text → Result ℤ
unfolding find_user_index
find_slack_user u id = find_user_index u [] [] [] [] id

-- `slices.Index` and `slices.Delete` of one element: the list without its first occurrence.
unfoldable pub delete_first : Text → List Text → List Text
delete_first id [] = []
delete_first id (x ∷ xs) = let rest = delete_first id xs in if x == id then xs else x ∷ rest

abbrev pub with_follower : ℕ → Text → User → User
with_follower now follower user = record user {
  updated = now;
  followers = sort (user.followers ++ (follower ∷ []));
}

abbrev pub without_follower : ℕ → Text → User → User
without_follower now follower user = record user {
  updated = now;
  followers = delete_first follower user.followers;
}

-- `FollowUser` for the entry that was found: the user, and whether the file is to be written.
unfoldable pub follow_found : ℕ → Text → Result ℤ → Act Users (User × Bool)
unfolding change entry contains sort
follow_found now follower (err e) u = (err e, u)
follow_found now follower (ok (negsuc _)) u = (ok (no_user, false), u)
follow_found now follower (ok (pos i)) u = elim (get_elem? u.entries i) [
  | none ↦ (err panicked, u)
  | some user ↦ if contains user.followers follower then (ok (user, false), u) else (
    ok (with_follower now follower user, true),
    record u { entries = change_at i (with_follower now follower) u.entries },
  )
]

unfoldable pub follow : ℕ → Text → Text → Act Users (User × Bool)
unfolding follow_found find_slack_user
follow now follower followed u = follow_found now follower (find_slack_user u followed) u

-- `unfollowUserWithoutLock`
unfoldable pub unfollow_found : ℕ → Text → Result ℤ → Act Users User
unfolding contains delete_first change_at
unfollow_found now follower (err e) u = (err e, u)
unfollow_found now follower (ok (negsuc _)) u = (ok no_user, u)
unfollow_found now follower (ok (pos i)) u = elim (get_elem? u.entries i) [
  | none ↦ (err panicked, u)
  | some user ↦
      if contains user.followers follower
      then (
        ok (without_follower now follower user),
        record u { entries = change_at i (without_follower now follower) u.entries },
      )
      else (ok no_user, u)
]

unfoldable pub unfollow_user_without_lock : ℕ → Text → Text → Act Users User
unfolding unfollow_found find_slack_user
unfollow_user_without_lock now follower followed u =
    unfollow_found now follower (find_slack_user u followed) u

-- The loop of `RemoveFollower` over the entries from `i` on, which reads each when it comes to it,
-- and whether the file is to be written.
unfoldable pub remove_follower_from : ℕ → Text → ℕ → ℕ → Bool → Act Users Bool
unfolding unfollow_user_without_lock contains
remove_follower_from now follower zero i done u = (ok done, u)
remove_follower_from now follower (suc left) i done u = elim (get_elem? u.entries i) [
  | none ↦ (err panicked, u)
  | some user ↦ elim (contains user.followers follower) [
    | false ↦ remove_follower_from now follower left (suc i) done u
    | true ↦
        continue (unfollow_user_without_lock now follower user.slack_id u)
          (λ _ u2. remove_follower_from now follower left (suc i) true u2)
  ]
]

unfoldable pub remove_follower : ℕ → Text → Act Users Bool
unfolding remove_follower_from
remove_follower now follower u = remove_follower_from now follower (length u.entries) 0 false u
