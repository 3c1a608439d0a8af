-- ===== src/Github.antt =====
-- pkg/github and pkg/github/workflows/pr.go: the events of pull requests.
pub mod Payload
pub mod Members
pub mod Lifecycle
pub mod Requests
pub mod Workflow
pub mod Untracked
mod Tests
