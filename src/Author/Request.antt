-- ===== src/Author/Request.antt =====
-- authorize.go: `AuthorRequest`.
pub mod Codec
use tacquito.Base.{
  apply_options, ℕ, ◌+◌, ◌%◌, Bool, true, false, not, List, [], ◌∷◌, ◌++◌, length, drop, get_or,
}
use tacquito.Base.{ltb, ◌==◌, if◌then◌else◌, Bytes, Result, ok, err, ◌>>=◌, ◌>>◌}
use tacquito.Base.{too_small, bad_secret}
use tacquito.Fields.{validate_all}
use tacquito.Fields.Authen.{validate_priv_lvl, validate_authen_type, validate_authen_service}
use tacquito.Fields.Authen.{validate_authen_user, validate_authen_port, validate_authen_rem_addr}
use tacquito.Fields.Author.{validate_authen_method, validate_args}
use tacquito.Wire.{
  read_byte, read_string, read_arg_lens, read_args, arg_len_bytes, arg_bytes, args_len,
}

abbrev pub author_request_len : ℕ
author_request_len = 0x8

pub record AuthorRequest : Type 0 where
  pub method : ℕ
  pub priv_lvl : ℕ
  pub type : ℕ
  pub service : ℕ
  pub user : Bytes
  pub port : Bytes
  pub rem_addr : Bytes
  pub args : List Bytes

abbrev pub set_author_request_method : ℕ → AuthorRequest → AuthorRequest
set_author_request_method v a = record a { method = v }

abbrev pub set_author_request_priv_lvl : ℕ → AuthorRequest → AuthorRequest
set_author_request_priv_lvl v a = record a { priv_lvl = v }

abbrev pub set_author_request_type : ℕ → AuthorRequest → AuthorRequest
set_author_request_type v a = record a { type = v }

abbrev pub set_author_request_service : ℕ → AuthorRequest → AuthorRequest
set_author_request_service v a = record a { service = v }

abbrev pub set_author_request_user : Bytes → AuthorRequest → AuthorRequest
set_author_request_user v a = record a { user = v }

abbrev pub set_author_request_port : Bytes → AuthorRequest → AuthorRequest
set_author_request_port v a = record a { port = v }

abbrev pub set_author_request_rem_addr : Bytes → AuthorRequest → AuthorRequest
set_author_request_rem_addr v a = record a { rem_addr = v }

abbrev pub set_author_request_args : List Bytes → AuthorRequest → AuthorRequest
set_author_request_args v a = record a { args = v }

-- The options are applied in order to the zero packet.
abbrev pub new_author_request : List (AuthorRequest → AuthorRequest) → AuthorRequest
new_author_request opts = apply_options opts (record {
  method = 0;
  priv_lvl = 0;
  type = 0;
  service = 0;
  user = [];
  port = [];
  rem_addr = [];
  args = [];
})

-- The condition that the fields are given, the packet's type, is read by none of them.
unfoldable pub validate : AuthorRequest → Result (Unit {0})
validate a = do
  validate_all (
      validate_authen_method a.method
      ∷ validate_priv_lvl a.priv_lvl
      ∷ validate_authen_type a.type
      ∷ validate_authen_service a.service
      ∷ validate_authen_user a.user
      ∷ validate_authen_port a.port
      ∷ validate_authen_rem_addr a.rem_addr
      ∷ [])
  validate_args a.args

unfoldable pub marshal_binary : AuthorRequest → Result Bytes
marshal_binary a = do
  validate a
  ok (
      a.method
      ∷ a.priv_lvl
      ∷ a.type
      ∷ a.service
      ∷ length a.user % 256
      ∷ length a.port % 256
      ∷ length a.rem_addr % 256
      ∷ length a.args % 256
      ∷ (arg_len_bytes a.args ++ (a.user ++ (a.port ++ (a.rem_addr ++ arg_bytes a.args)))))

unfoldable pub len : AuthorRequest → ℕ
len a = length a.user + length a.port + length a.rem_addr + args_len a.args

unfoldable pub unmarshal_binary : Bytes → Result AuthorRequest
unfolding len
unmarshal_binary s =
    let (user_len, b1) = read_byte (drop 4 s) in
    let (port_len, b2) = read_byte b1 in
    let (rem_addr_len, b3) = read_byte b2 in
    let (arg_cnt, b4) = read_byte b3 in
    let (arg_lens, total_arg_len, b5) = read_arg_lens arg_cnt b4 in
    let (user, b6) = read_string user_len b5 in
    let (port, b7) = read_string port_len b6 in
    let (rem_addr, b8) = read_string rem_addr_len b7 in
    let (args, b9) = read_args arg_lens b8 in
    let a : AuthorRequest = record {
      method = get_or s 0 0;
      priv_lvl = get_or s 1 0;
      type = get_or s 2 0;
      service = get_or s 3 0;
      user = user;
      port = port;
      rem_addr = rem_addr;
      args = args;
    } in
    if ltb (length s) author_request_len
    then err too_small
    else if not (len a == user_len + port_len + rem_addr_len + total_arg_len)
    then err bad_secret
    else validate a >> ok a
