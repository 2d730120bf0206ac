-- ===== src/Stringy.antt =====
-- cmds/server/config/authorizers/stringy: the authorization of commands and sessions.
pub mod Command
pub mod Session
pub mod Handle
