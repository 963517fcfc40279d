-- ===== src/Server.antt =====
-- internal/server/server.go, in parts: the answers to requests, the management interface, and the
-- configuration that is in use.
pub mod Redirect
pub mod Management
pub mod Running
