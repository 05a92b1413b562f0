-- ===== src/Admin.antt =====
-- The admin server's handlers (internal/app/admin/http).
pub mod Texts
pub mod Paths
pub mod Resources
pub mod Reply
pub mod Keys
pub mod Entries
pub mod Versions
pub mod Readings
pub mod Dumping
pub mod Prefixes
pub mod Clearing
pub mod Answers
pub mod Ready
