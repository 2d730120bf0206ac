-- ===== src/Report/Flags.antt =====
-- The `String` methods of the flags.
use tacquito.Base.{ℕ, List, [], ◌∷◌, if◌then◌else◌, Bytes, codes}
use tacquito.Text.{join}
use tacquito.Fields.Header.{flag_has, unencrypted_flag, single_connect}
use tacquito.Fields.Authen.{authen_reply_flag_no_echo, authen_continue_flag_abort}
use tacquito.Fields.Acct.{
  acct_flag_start, acct_flag_stop, acct_flag_watchdog, acct_flag_watchdog_with_update,
}

-- `if b.Has(f) { flags = append(flags, name) }` for each flag in turn.
unfoldable pub set_flags : ℕ → List (ℕ × Bytes) → List Bytes
set_flags b [] = []
set_flags b (entry ∷ table) =
    let later = set_flags b table in if flag_has b entry.0 then entry.1 ∷ later else later

unfoldable pub header_flag_string : ℕ → Bytes
unfolding set_flags
header_flag_string b = join (codes "|") (
    set_flags b
      ((unencrypted_flag, codes "UnencryptedFlag") ∷ (single_connect, codes "SingleConnect") ∷ []))

unfoldable pub authen_reply_flag_string : ℕ → Bytes
authen_reply_flag_string b =
    if flag_has b authen_reply_flag_no_echo then codes "AuthenReplyFlagNoEcho" else []

unfoldable pub authen_continue_flag_string : ℕ → Bytes
authen_continue_flag_string b =
    if flag_has b authen_continue_flag_abort then codes "AuthenContinueFlagAbort" else []

unfoldable pub acct_request_flag_string : ℕ → Bytes
unfolding set_flags
acct_request_flag_string t = join (codes "|") (
    set_flags t (
      (acct_flag_start, codes "AcctFlagStart")
      ∷ (acct_flag_stop, codes "AcctFlagStop")
      ∷ (acct_flag_watchdog, codes "AcctFlagWatchdog")
      ∷ (acct_flag_watchdog_with_update, codes "AcctFlagWatchdogWithUpdate")
      ∷ []))
