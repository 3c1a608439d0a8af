-- ===== src/Bitbucket.antt =====
-- pkg/bitbucket and pkg/bitbucket/workflows: the events of pull requests.
pub mod Payload
pub mod Reviewers
pub mod Snapshot
pub mod Effects
pub mod Reviewed
pub mod Updated
pub mod Closed
pub mod Counts
mod Tests
