-- ===== src/Mapping.antt =====
-- pkg/data/internal/urls_ids.go: the two-way mapping between the URLs of pull requests and their
-- comments, and Slack IDs.
pub mod Ops
pub mod Calls
pub mod Laws
pub mod Retried
mod Tests
