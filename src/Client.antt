-- ===== src/Client.antt =====
-- The upstream client (internal/app/upstream/client.go).
pub mod Session
pub mod Acks
pub mod Endings
pub mod Retry
pub mod Retries
