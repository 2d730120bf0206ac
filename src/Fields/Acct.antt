-- ===== src/Fields/Acct.antt =====
-- accounting_fields.go: the fields of accounting packets.
use tacquito.Base.{ℕ, ◌&&◌, [], ◌∷◌, if◌then◌else◌, Bytes}
use tacquito.Base.{Result, ok, err, unknown_acct_status, not_ascii, stop_and_watchdog}
use tacquito.Fields.{among, require}
use tacquito.Fields.Header.{flag_has}
use tacquito.Wire.{is_all_ascii}

abbrev pub acct_reply_status_success : ℕ
acct_reply_status_success = 0x01

abbrev pub acct_reply_status_error : ℕ
acct_reply_status_error = 0x02

unfoldable pub validate_acct_reply_status : ℕ → Result (Unit {0})
validate_acct_reply_status t =
    require (among t (acct_reply_status_success ∷ acct_reply_status_error ∷ [])) unknown_acct_status

unfoldable pub validate_acct_server_msg : Bytes → Result (Unit {0})
validate_acct_server_msg s = require (is_all_ascii s) not_ascii

unfoldable pub validate_acct_data : Bytes → Result (Unit {0})
validate_acct_data s = require (is_all_ascii s) not_ascii

abbrev pub acct_flag_start : ℕ
acct_flag_start = 0x02

abbrev pub acct_flag_stop : ℕ
acct_flag_stop = 0x04

abbrev pub acct_flag_watchdog : ℕ
acct_flag_watchdog = 0x08

abbrev pub acct_flag_watchdog_with_update : ℕ
acct_flag_watchdog_with_update = 0x0A

unfoldable pub validate_acct_request_flag : ℕ → Result (Unit {0})
validate_acct_request_flag t =
    if flag_has t acct_flag_stop && flag_has t acct_flag_watchdog
    then err stop_and_watchdog
    else ok tt
