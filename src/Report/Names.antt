-- ===== src/Report/Names.antt =====
-- The `String` methods of the fields. A name is printed for a constant, and its number for any
-- other value.
pub mod Laws
pub mod Kinds
use tacquito.Base.{ℕ, ◌+◌, ◌%◌, List, [], ◌∷◌, ◌++◌, ◌==◌, if◌then◌else◌, Bytes, codes}
use tacquito.Text.{trim_space, join}
use tacquito.Fields.Header.{Version, flag_has, unencrypted_flag, single_connect}
use tacquito.Fields.Authen.{authen_reply_flag_no_echo, authen_continue_flag_abort}
use tacquito.Fields.Acct.{
  acct_flag_start, acct_flag_stop, acct_flag_watchdog, acct_flag_watchdog_with_update,
}
use tacquito.Fields.Header.{authenticate, authorize, accounting}
use tacquito.Fields.Authen.{
  authen_action_login, authen_action_pass, authen_action_send_auth, priv_lvl_min, priv_lvl_user,
}
use tacquito.Fields.Authen.{
  priv_lvl_root, authen_type_not_set, authen_type_ascii, authen_type_pap, authen_type_chap,
}
use tacquito.Fields.Authen.{
  authen_type_arap, authen_type_mschap, authen_type_mschapv2, authen_service_none,
  authen_service_login,
}
use tacquito.Fields.Authen.{
  authen_service_enable, authen_service_ppp, authen_service_arap, authen_service_pt,
  authen_service_rcmd,
}
use tacquito.Fields.Authen.{
  authen_service_x25, authen_service_nasi, authen_service_fw_proxy, authen_status_pass,
  authen_status_fail,
}
use tacquito.Fields.Authen.{
  authen_status_get_data, authen_status_get_user, authen_status_get_pass, authen_status_restart,
  authen_status_error,
}
use tacquito.Fields.Author.{
  authen_method_not_set, authen_method_none, authen_method_krb5, authen_method_line,
  authen_method_enable,
}
use tacquito.Fields.Author.{
  authen_method_local, authen_method_tacacs_plus, authen_method_guest, authen_method_radius,
  author_status_pass_add,
}
use tacquito.Fields.Author.{author_status_pass_repl, author_status_fail, author_status_error}
use tacquito.Fields.Acct.{acct_reply_status_success, acct_reply_status_error}
use tacquito.Report.Decimal.{decimal}

-- `switch t { case C: return "C" … }`, and what follows the switch.
unfoldable pub name_in : List (ℕ × Bytes) → Bytes → ℕ → Bytes
name_in [] other t = other
name_in (entry ∷ table) other t =
    let later = name_in table other t in if t == entry.0 then entry.1 else later

-- `fmt.Sprintf("unknown Kind[%d]", uint8(t))`.
unfoldable pub unknown : Bytes → ℕ → Bytes
unknown kind t = codes "unknown " ++ (kind ++ (codes "[" ++ (decimal t ++ codes "]")))

unfoldable pub named : Bytes → List (ℕ × Bytes) → ℕ → Bytes
unfolding name_in unknown
named kind table t = name_in table (unknown kind t) t

abbrev pub header_type_names : List (ℕ × Bytes)
header_type_names =
    (authenticate, codes "Authenticate")
    ∷ (authorize, codes "Authorize")
    ∷ (accounting, codes "Accounting")
    ∷ []

unfoldable pub header_type_string : ℕ → Bytes
unfolding named
header_type_string = named (codes "HeaderType") header_type_names

abbrev pub authen_action_names : List (ℕ × Bytes)
authen_action_names =
    (authen_action_login, codes "AuthenActionLogin")
    ∷ (authen_action_pass, codes "AuthenActionPass")
    ∷ (authen_action_send_auth, codes "AuthenActionSendAuth")
    ∷ []

unfoldable pub authen_action_string : ℕ → Bytes
unfolding named
authen_action_string = named (codes "AuthenAction") authen_action_names

abbrev pub priv_lvl_names : List (ℕ × Bytes)
priv_lvl_names =
    (priv_lvl_min, codes "PrivLvlMin")
    ∷ (priv_lvl_user, codes "PrivLvlUser")
    ∷ (priv_lvl_root, codes "PrivLvlRoot")
    ∷ []

unfoldable pub priv_lvl_string : ℕ → Bytes
unfolding named
priv_lvl_string = named (codes "PrivLvl") priv_lvl_names

abbrev pub authen_type_names : List (ℕ × Bytes)
authen_type_names =
    (authen_type_not_set, codes "AuthenTypeNotSet")
    ∷ (authen_type_ascii, codes "AuthenTypeASCII")
    ∷ (authen_type_pap, codes "AuthenTypePAP")
    ∷ (authen_type_chap, codes "AuthenTypeCHAP")
    ∷ (authen_type_arap, codes "AuthenTypeARAP")
    ∷ (authen_type_mschap, codes "AuthenTypeMSCHAP")
    ∷ (authen_type_mschapv2, codes "AuthenTypeMSCHAPV2")
    ∷ []

unfoldable pub authen_type_string : ℕ → Bytes
unfolding named
authen_type_string = named (codes "AuthenType") authen_type_names

abbrev pub authen_service_names : List (ℕ × Bytes)
authen_service_names =
    (authen_service_none, codes "AuthenServiceNone")
    ∷ (authen_service_login, codes "AuthenServiceLogin")
    ∷ (authen_service_enable, codes "AuthenServiceEnable")
    ∷ (authen_service_ppp, codes "AuthenServicePPP")
    ∷ (authen_service_arap, codes "AuthenServiceARAP")
    ∷ (authen_service_pt, codes "AuthenServicePT")
    ∷ (authen_service_rcmd, codes "AuthenServiceRCMD")
    ∷ (authen_service_x25, codes "AuthenServiceX25")
    ∷ (authen_service_nasi, codes "AuthenServiceNASI")
    ∷ (authen_service_fw_proxy, codes "AuthenServiceFwProxy")
    ∷ []

unfoldable pub authen_service_string : ℕ → Bytes
unfolding named
authen_service_string = named (codes "AuthenService") authen_service_names

abbrev pub authen_status_names : List (ℕ × Bytes)
authen_status_names =
    (authen_status_pass, codes "AuthenStatusPass")
    ∷ (authen_status_fail, codes "AuthenStatusFail")
    ∷ (authen_status_get_data, codes "AuthenStatusGetData")
    ∷ (authen_status_get_user, codes "AuthenStatusGetUser")
    ∷ (authen_status_get_pass, codes "AuthenStatusGetPass")
    ∷ (authen_status_restart, codes "AuthenStatusRestart")
    ∷ (authen_status_error, codes "AuthenStatusError")
    ∷ []

unfoldable pub authen_status_string : ℕ → Bytes
unfolding named
authen_status_string = named (codes "AuthenStatus") authen_status_names

abbrev pub authen_method_names : List (ℕ × Bytes)
authen_method_names =
    (authen_method_not_set, codes "AuthenMethodNotSet")
    ∷ (authen_method_none, codes "AuthenMethodNone")
    ∷ (authen_method_krb5, codes "AuthenMethodKrb5")
    ∷ (authen_method_line, codes "AuthenMethodLine")
    ∷ (authen_method_enable, codes "AuthenMethodEnable")
    ∷ (authen_method_local, codes "AuthenMethodLocal")
    ∷ (authen_method_tacacs_plus, codes "AuthenMethodTacacsPlus")
    ∷ (authen_method_guest, codes "AuthenMethodGuest")
    ∷ (authen_method_radius, codes "AuthenMethodRadius")
    ∷ []

unfoldable pub authen_method_string : ℕ → Bytes
unfolding named
authen_method_string = named (codes "AuthenMethod") authen_method_names

abbrev pub author_status_names : List (ℕ × Bytes)
author_status_names =
    (author_status_pass_add, codes "AuthorStatusPassAdd")
    ∷ (author_status_pass_repl, codes "AuthorStatusPassRepl")
    ∷ (author_status_fail, codes "AuthorStatusFail")
    ∷ (author_status_error, codes "AuthorStatusError")
    ∷ []

unfoldable pub author_status_string : ℕ → Bytes
unfolding named
author_status_string = named (codes "AuthorStatus") author_status_names

abbrev pub acct_reply_status_names : List (ℕ × Bytes)
acct_reply_status_names =
    (acct_reply_status_success, codes "AcctReplyStatusSuccess")
    ∷ (acct_reply_status_error, codes "AcctReplyStatusError")
    ∷ []

unfoldable pub acct_reply_status_string : ℕ → Bytes
unfolding named
acct_reply_status_string = named (codes "AcctReplyStatus") acct_reply_status_names

-- `Version.String`.
unfoldable pub version_string : Version → Bytes
version_string v = codes "major:" ++ (decimal v.major ++ (codes ",minor:" ++ decimal v.minor))

-- `SessionID.String`, of a uint32.
unfoldable pub session_id_string : ℕ → Bytes
session_id_string s = decimal s

-- `SequenceNumber.String`: `uint8(t)`.
unfoldable pub sequence_number_string : ℕ → Bytes
sequence_number_string t = decimal (t % 256)

-- `Args.String`: each argument, without white space around it, and a comma.
unfoldable pub args_string : List Bytes → Bytes
args_string [] = []
args_string (arg ∷ args) = trim_space arg ++ (codes ", " ++ args_string args)
