-- ===== src/Orchestrator.antt =====
-- The orchestrator (internal/app/orchestrator).
pub mod Assoc
pub mod Downstream
pub mod Upstream
pub mod Watches
pub mod Deletions
pub mod State
pub mod Watching
pub mod Streams
pub mod Shutdowns
pub mod Consistency
pub mod Fanout
pub mod Opening
pub mod Delivering
pub mod Responses
pub mod Closing
pub mod Aggregated
pub mod Histories
pub mod Expiry
