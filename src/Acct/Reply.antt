-- ===== src/Acct/Reply.antt =====
-- accounting.go: `AcctReply`, its options and its decoder.
pub mod Codec
use tacquito.Base.{ℕ, ◌+◌, Bool, true, false, not, List, [], ◌∷◌, ◌++◌, length}
use tacquito.Base.{ltb, ◌==◌, if◌then◌else◌, Bytes, Result, ok, err, ◌>>=◌, ◌>>◌}
use tacquito.Base.{apply_options, too_small, bad_secret}
use tacquito.Fields.{validate_all}
use tacquito.Fields.Acct.{validate_acct_reply_status, validate_acct_server_msg, validate_acct_data}
use tacquito.Wire.{read_byte, read_uint16, read_string, append_uint16}

abbrev pub acct_reply_len : ℕ
acct_reply_len = 0x5

pub record AcctReply : Type 0 where
  pub status : ℕ
  pub server_msg : Bytes
  pub content : Bytes

abbrev pub set_acct_reply_status : ℕ → AcctReply → AcctReply
set_acct_reply_status v a = record a { status = v }

abbrev pub set_acct_reply_server_msg : Bytes → AcctReply → AcctReply
set_acct_reply_server_msg v a = record a { server_msg = v }

abbrev pub set_acct_reply_data : Bytes → AcctReply → AcctReply
set_acct_reply_data v a = record a { content = v }

-- The options are applied in order to the zero packet.
abbrev pub new_acct_reply : List (AcctReply → AcctReply) → AcctReply
new_acct_reply opts = apply_options opts (record { status = 0; server_msg = []; content = [] })

unfoldable pub validate : AcctReply → Result (Unit {0})
validate a = validate_all (
    validate_acct_reply_status a.status
    ∷ validate_acct_server_msg a.server_msg
    ∷ validate_acct_data a.content
    ∷ [])

unfoldable pub marshal_binary : AcctReply → Result Bytes
unfolding append_uint16
marshal_binary a = do
  validate a
  let buf = append_uint16 (append_uint16 [] (length a.server_msg)) (length a.content)
  ok ((buf ++ (a.status ∷ [])) ++ (a.server_msg ++ a.content))

unfoldable pub len : AcctReply → ℕ
len a = length a.server_msg + length a.content

unfoldable pub unmarshal_binary : Bytes → Result AcctReply
unfolding len
unmarshal_binary s =
    let (server_msg_len, b1) = read_uint16 s in
    let (data_len, b2) = read_uint16 b1 in
    let (status, b3) = read_byte b2 in
    let (server_msg, b4) = read_string server_msg_len b3 in
    let (content, b5) = read_string data_len b4 in
    let a : AcctReply = record { status = status; server_msg = server_msg; content = content } in
    if ltb (length s) acct_reply_len
    then err too_small
    else if not (len a == server_msg_len + data_len)
    then err bad_secret
    else validate a >> ok a
