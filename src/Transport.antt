-- ===== src/Transport.antt =====
-- The transport objects (internal/app/transport).
pub mod Metadata
pub mod Message
pub mod RequestV2
pub mod RequestV3
pub mod Request
pub mod ResourceTypes
pub mod ResponseV2
pub mod ResponseV3
pub mod Response
pub mod WatchV2
pub mod WatchV3
pub mod Watch
pub mod StreamV2
pub mod StreamV3
pub mod Delivery
