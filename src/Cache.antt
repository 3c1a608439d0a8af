-- ===== src/Cache.antt =====
-- internal/cache: the key-value store with expiration, its operations at a time of the clock. A time
-- is a number, 0 the zero time of package time. The lock makes each operation one step, except that
-- `Item` deletes an expired item in a second one, which `Runs` has as two steps.
pub mod Store
pub mod Visible
pub mod Refine
pub mod Runs
pub mod Listing
pub mod Ttl
mod Tests
