-- ===== src/Server.antt =====
-- sessions.go, handlers.go and server.go: the sessions of a connection, the response that a handler
-- is given, and the loop that serves a connection. The type of handlers is a parameter.
pub mod Sessions
pub mod Response
pub mod Serve
pub mod Accept
