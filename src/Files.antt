-- ===== src/Files.antt =====
-- pkg/files: the owners of files by a CODEOWNERS file, the approvals that they ask for, and the
-- high-risk files.
pub mod Lines
pub mod Parse
pub mod Groups
pub mod Owner
pub mod Expand
pub mod Expansion
pub mod Paths
pub mod Returns
pub mod Approvals
pub mod Safety
pub mod Source
pub mod Queries
pub mod Order
pub mod Required
pub mod Kept
mod Tests
