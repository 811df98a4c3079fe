-- ===== src/Server.antt =====
-- server: the HTTP middleware, the registration of tools, and the server's own state.
pub mod Http
pub mod Middleware
pub mod Tools
pub mod Requests
