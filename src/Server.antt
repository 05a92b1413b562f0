-- ===== src/Server.antt =====
-- The server's loop (internal/app/server/server.go) with the admin server's ready endpoint.
pub mod Serving
pub mod Shape
pub mod Settled
