-- ===== src/Author/Reply.antt =====
-- authorize.go: `AuthorReply`, its options and its decoder.
pub mod Codec
use tacquito.Base.{ℕ, ◌+◌, ◌%◌, Bool, true, false, not, List, [], ◌∷◌, ◌++◌, length}
use tacquito.Base.{ltb, ◌==◌, if◌then◌else◌, Bytes, Result, ok, err, ◌>>=◌, ◌>>◌, apply_options}
use tacquito.Base.{too_small, bad_secret}
use tacquito.Fields.{validate_all}
use tacquito.Fields.Author.{
  validate_author_status, validate_author_server_msg, validate_author_data,
}
use tacquito.Fields.Author.{validate_args}
use tacquito.Wire.{read_byte, read_uint16, read_string, append_uint16}
use tacquito.Wire.{read_arg_lens, read_args, arg_len_bytes, arg_bytes, args_len}

abbrev pub author_reply_len : ℕ
author_reply_len = 0x6

pub record AuthorReply : Type 0 where
  pub status : ℕ
  pub args : List Bytes
  pub server_msg : Bytes
  pub content : Bytes

abbrev pub set_author_reply_status : ℕ → AuthorReply → AuthorReply
set_author_reply_status v a = record a { status = v }

abbrev pub set_author_reply_args : List Bytes → AuthorReply → AuthorReply
set_author_reply_args v a = record a { args = v }

abbrev pub set_author_reply_server_msg : Bytes → AuthorReply → AuthorReply
set_author_reply_server_msg v a = record a { server_msg = v }

abbrev pub set_author_reply_data : Bytes → AuthorReply → AuthorReply
set_author_reply_data v a = record a { content = v }

-- The options are applied in order to the zero packet.
abbrev pub new_author_reply : List (AuthorReply → AuthorReply) → AuthorReply
new_author_reply opts =
    apply_options opts (record { status = 0; args = []; server_msg = []; content = [] })

unfoldable pub validate : AuthorReply → Result (Unit {0})
validate a = do
  validate_all (
      validate_author_status a.status
      ∷ validate_author_server_msg a.server_msg
      ∷ validate_author_data a.content
      ∷ [])
  validate_args a.args

unfoldable pub marshal_binary : AuthorReply → Result Bytes
unfolding append_uint16
marshal_binary a = do
  validate a
  let head = a.status ∷ (length a.args % 256) ∷ []
  let buf = append_uint16 (append_uint16 head (length a.server_msg)) (length a.content)
  ok (buf ++ (arg_len_bytes a.args ++ (a.server_msg ++ (a.content ++ arg_bytes a.args))))

unfoldable pub len : AuthorReply → ℕ
len a = length a.server_msg + length a.content + args_len a.args

unfoldable pub unmarshal_binary : Bytes → Result AuthorReply
unfolding len
unmarshal_binary s =
    let (status, b1) = read_byte s in
    let (arg_cnt, b2) = read_byte b1 in
    let (server_msg_len, b3) = read_uint16 b2 in
    let (data_len, b4) = read_uint16 b3 in
    let (arg_lens, total_arg_len, b5) = read_arg_lens arg_cnt b4 in
    let (server_msg, b6) = read_string server_msg_len b5 in
    let (content, b7) = read_string data_len b6 in
    let (args, b8) = read_args arg_lens b7 in
    let a : AuthorReply = record {
      status = status;
      args = args;
      server_msg = server_msg;
      content = content;
    } in
    if ltb (length s) author_reply_len
    then err too_small
    else if not (len a == server_msg_len + data_len + total_arg_len)
    then err bad_secret
    else validate a >> ok a
