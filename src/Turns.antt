-- ===== src/Turns.antt =====
-- pkg/data/internal/turns.go and pkg/data/turns.go: whose turn it is to look at a pull request.
pub mod State
pub mod Snapshot
pub mod File
pub mod Ops
pub mod Queries
pub mod Normal
pub mod Healthy
pub mod Invariant
pub mod Runs
pub mod Attention
pub mod Switch
pub mod Freeze
pub mod Reviewers
pub mod Roster
pub mod Reset
pub mod Calls
pub mod Caseless
pub mod Scan
pub mod Listed
mod Tests
