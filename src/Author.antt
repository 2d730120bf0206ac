-- ===== src/Author.antt =====
-- authorize.go: the two kinds of authorization packet.
pub mod Args
pub mod Request
pub mod Reply
