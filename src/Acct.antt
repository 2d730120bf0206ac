-- ===== src/Acct.antt =====
-- accounting.go: the two kinds of accounting packet.
pub mod Request
pub mod Reply
