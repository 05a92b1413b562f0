-- ===== src/Tests.antt =====
-- Runs of the definitions and examples of the theorems, on small data.
mod Fixtures
mod Keying
mod Caching
mod Relaying
mod Streaming
mod Validating
mod Serving
mod Starting
