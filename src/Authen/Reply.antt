-- ===== src/Authen/Reply.antt =====
-- authenticate.go: `AuthenReply`, its options and its decoder.
pub mod Codec
use tacquito.Base.{ℕ, ◌+◌, Bool, true, false, not, List, [], ◌∷◌, ◌++◌, length, drop, get_or}
use tacquito.Base.{ltb, ◌==◌, if◌then◌else◌, Bytes, Result, ok, err, ◌>>=◌, ◌>>◌}
use tacquito.Base.{apply_options, too_small, bad_secret}
use tacquito.Fields.{validate_all}
use tacquito.Fields.Authen.{validate_authen_status}
use tacquito.Wire.{read_uint16, read_string, append_uint16}

abbrev pub authen_reply_len : ℕ
authen_reply_len = 0x05

pub record AuthenReply : Type 0 where
  pub status : ℕ
  pub flags : ℕ
  pub server_msg : Bytes
  pub content : Bytes

abbrev pub set_authen_reply_status : ℕ → AuthenReply → AuthenReply
set_authen_reply_status v a = record a { status = v }

abbrev pub set_authen_reply_flag : ℕ → AuthenReply → AuthenReply
set_authen_reply_flag v a = record a { flags = v }

abbrev pub set_authen_reply_server_msg : Bytes → AuthenReply → AuthenReply
set_authen_reply_server_msg v a = record a { server_msg = v }

abbrev pub set_authen_reply_data : Bytes → AuthenReply → AuthenReply
set_authen_reply_data v a = record a { content = v }

-- The options are applied in order to the zero packet.
abbrev pub new_authen_reply : List (AuthenReply → AuthenReply) → AuthenReply
new_authen_reply opts =
    apply_options opts (record { status = 0; flags = 0; server_msg = []; content = [] })

unfoldable pub validate : AuthenReply → Result (Unit {0})
validate a = validate_all (validate_authen_status a.status ∷ [])

unfoldable pub marshal_binary : AuthenReply → Result Bytes
unfolding append_uint16
marshal_binary a = do
  validate a
  let head = a.status ∷ a.flags ∷ []
  let buf = append_uint16 (append_uint16 head (length a.server_msg)) (length a.content)
  ok (buf ++ (a.server_msg ++ a.content))

unfoldable pub len : AuthenReply → ℕ
len a = length a.server_msg + length a.content

unfoldable pub unmarshal_binary : Bytes → Result AuthenReply
unfolding len
unmarshal_binary s =
    let (server_msg_len, b1) = read_uint16 (drop 2 s) in
    let (data_len, b2) = read_uint16 b1 in
    let (server_msg, b3) = read_string server_msg_len b2 in
    let (content, b4) = read_string data_len b3 in
    let a : AuthenReply = record {
      status = get_or s 0 0;
      flags = get_or s 1 0;
      server_msg = server_msg;
      content = content;
    } in
    if ltb (length s) authen_reply_len
    then err too_small
    else if not (len a == server_msg_len + data_len)
    then err bad_secret
    else validate a >> ok a
