-- ===== src/Reports.antt =====
-- pkg/slack/time.go and pr_data.go: times of day for reminders, and what a report says of a pull
-- request.
pub mod Time
pub mod Kitchen
pub mod Reading
pub mod Details
mod Tests
