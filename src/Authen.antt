-- ===== src/Authen.antt =====
-- authenticate.go: the three kinds of authentication packet.
pub mod Start
pub mod Continue
pub mod Reply
pub mod Total
