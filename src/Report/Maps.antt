-- ===== src/Report/Maps.antt =====
-- The `Fields` methods: maps from names to texts. A map is a list of its entries, where the first
-- entry of a key counts.
use tacquito.Base.{List, [], ◌∷◌, ◌++◌, if◌then◌else◌, Bytes, codes, Option, none, some}
use tacquito.Text.{equals}
use tacquito.Header.{Header}
use tacquito.Authen.Start.{AuthenStart}
use tacquito.Authen.Continue.{AuthenContinue}
use tacquito.Authen.Reply.{AuthenReply}
use tacquito.Author.Request.{AuthorRequest}
use tacquito.Author.Reply.{AuthorReply}
use tacquito.Acct.Request.{AcctRequest}
use tacquito.Acct.Reply.{AcctReply}
use tacquito.Report.Decimal.{decimal}
use tacquito.Report.Names.{header_type_string, version_string, session_id_string}
use tacquito.Report.Names.{sequence_number_string, authen_action_string}
use tacquito.Report.Names.{priv_lvl_string, authen_type_string, authen_service_string}
use tacquito.Report.Names.{authen_status_string, authen_method_string, author_status_string}
use tacquito.Report.Names.{acct_reply_status_string, args_string}
use tacquito.Report.Flags.{header_flag_string, authen_reply_flag_string}
use tacquito.Report.Flags.{authen_continue_flag_string, acct_request_flag_string}

abbrev pub FieldMap : Type 0
FieldMap = List (Bytes × Bytes)

-- `v, found := fields[key]`.
unfoldable pub field : FieldMap → Bytes → Option Bytes
field [] key = none
field (entry ∷ fields) key =
    let later = field fields key in if equals entry.0 key then some entry.1 else later

-- `for k, v := range b { a[k] = v }`.
unfoldable pub merge : FieldMap → FieldMap → FieldMap
merge a b = b ++ a

unfoldable pub header_fields : Header → FieldMap
header_fields h =
    (codes "header-version", version_string h.version)
    ∷ (codes "header-type", header_type_string h.type)
    ∷ (codes "header-seq-no", sequence_number_string h.seq_no)
    ∷ (codes "header-session-id", session_id_string h.session_id)
    ∷ (codes "header-flags", header_flag_string h.flags)
    ∷ (codes "header-length", decimal h.len)
    ∷ []

unfoldable pub authen_start_fields : AuthenStart → FieldMap
authen_start_fields a =
    (codes "packet-type", codes "AuthenStart")
    ∷ (codes "action", authen_action_string a.action)
    ∷ (codes "priv-lvl", priv_lvl_string a.priv_lvl)
    ∷ (codes "type", authen_type_string a.type)
    ∷ (codes "service", authen_service_string a.service)
    ∷ (codes "user", a.user)
    ∷ (codes "port", a.port)
    ∷ (codes "rem-addr", a.rem_addr)
    ∷ (codes "data", a.content)
    ∷ []

unfoldable pub authen_continue_fields : AuthenContinue → FieldMap
authen_continue_fields a =
    (codes "packet-type", codes "AuthenContinue")
    ∷ (codes "flags", authen_continue_flag_string a.flags)
    ∷ (codes "user-msg", a.user_message)
    ∷ (codes "data", a.content)
    ∷ []

unfoldable pub authen_reply_fields : AuthenReply → FieldMap
authen_reply_fields a =
    (codes "packet-type", codes "AuthenReply")
    ∷ (codes "status", authen_status_string a.status)
    ∷ (codes "flags", authen_reply_flag_string a.flags)
    ∷ (codes "server-msg", a.server_msg)
    ∷ (codes "data", a.content)
    ∷ []

unfoldable pub author_request_fields : AuthorRequest → FieldMap
author_request_fields a =
    (codes "packet-type", codes "AuthorRequest")
    ∷ (codes "method", authen_method_string a.method)
    ∷ (codes "priv-lvl", priv_lvl_string a.priv_lvl)
    ∷ (codes "type", authen_type_string a.type)
    ∷ (codes "service", authen_service_string a.service)
    ∷ (codes "user", a.user)
    ∷ (codes "port", a.port)
    ∷ (codes "rem-addr", a.rem_addr)
    ∷ (codes "args", args_string a.args)
    ∷ []

unfoldable pub author_reply_fields : AuthorReply → FieldMap
author_reply_fields a =
    (codes "packet-type", codes "AuthorReply")
    ∷ (codes "status", author_status_string a.status)
    ∷ (codes "args", args_string a.args)
    ∷ (codes "server-msg", a.server_msg)
    ∷ (codes "data", a.content)
    ∷ []

unfoldable pub acct_request_fields : AcctRequest → FieldMap
acct_request_fields a =
    (codes "packet-type", codes "AcctRequest")
    ∷ (codes "flags", acct_request_flag_string a.flags)
    ∷ (codes "method", authen_method_string a.method)
    ∷ (codes "priv-lvl", priv_lvl_string a.priv_lvl)
    ∷ (codes "type", authen_type_string a.type)
    ∷ (codes "service", authen_service_string a.service)
    ∷ (codes "user", a.user)
    ∷ (codes "port", a.port)
    ∷ (codes "rem-addr", a.rem_addr)
    ∷ (codes "args", args_string a.args)
    ∷ []

unfoldable pub acct_reply_fields : AcctReply → FieldMap
acct_reply_fields a =
    (codes "packet-type", codes "AcctReply")
    ∷ (codes "status", acct_reply_status_string a.status)
    ∷ (codes "server-msg", a.server_msg)
    ∷ (codes "data", a.content)
    ∷ []
