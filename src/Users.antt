-- ===== src/Users.antt =====
-- pkg/data/internal/users.go: the list of users with its indexes, in memory and in users.json.
pub mod Db
pub mod Ops
pub mod Steps
pub mod Update
pub mod RoundTrip
pub mod Load
pub mod Shared
pub mod File
pub mod Follow
pub mod Followers
pub mod FollowFile
mod Tests
