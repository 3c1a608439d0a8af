-- ===== src/Channel.antt =====
-- pkg/slack/channels.go: the names of the Slack channels, and the loops that look for a free one.
pub mod Pattern
pub mod Name
pub mod Shape
pub mod Fixed
pub mod Create
pub mod Attempts
pub mod Unique
mod Tests
