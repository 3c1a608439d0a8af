-- ===== src/Stores.antt =====
-- The other data files of pkg/data/internal, and their callers in pkg/data: builds, diffstats,
-- snapshots of pull requests, reminders and Slack bots.
pub mod Access
pub mod Entries
pub mod Builds
pub mod Diffstat
pub mod Snapshots
pub mod BuildLaws
mod Tests
