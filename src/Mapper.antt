-- ===== src/Mapper.antt =====
-- The mapper from requests to aggregation keys (internal/app/mapper/mapper.go).
pub mod Regexp
pub mod Match
pub mod Action
pub mod Result
pub mod Key
pub mod Plain
pub mod Semantics
pub mod Fragments
pub mod Keys
pub mod Invariance
pub mod PartPanics
pub mod Panics
