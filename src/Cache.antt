-- ===== src/Cache.antt =====
-- The response cache (internal/app/cache/cache.go, request_store.go) over groupcache's LRU cache.
pub mod Lru
pub mod Resource
pub mod Requests
pub mod Ops
pub mod View
pub mod Invariant
pub mod Entries
pub mod Keeps
pub mod Reads
pub mod Frames
pub mod Single
pub mod Removals
pub mod Spec
pub mod Implements
pub mod Answers
pub mod Ttl
pub mod Refines
