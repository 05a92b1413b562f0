-- ===== src/Bootstrap.antt =====
-- The bootstrap configuration (pkg/api/bootstrap/v1), its validation, and what RunWithContext
-- (internal/app/server/server.go) makes of it before it serves.
pub mod Messages
pub mod Hostname
pub mod Validate
pub mod Validity
pub mod Accepted
pub mod Startup
pub mod Started
pub mod Flush
