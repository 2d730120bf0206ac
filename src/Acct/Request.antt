-- ===== src/Acct/Request.antt =====
-- accounting.go: `AcctRequest`.
pub mod Codec
use tacquito.Base.{
  apply_options, ℕ, ◌+◌, ◌%◌, Bool, true, false, not, List, [], ◌∷◌, ◌++◌, length, drop, get_or,
}
use tacquito.Base.{ltb, ◌==◌, if◌then◌else◌, Bytes, Result, ok, err, ◌>>=◌, ◌>>◌}
use tacquito.Base.{too_small, bad_secret}
use tacquito.Fields.{validate_all}
use tacquito.Fields.Authen.{validate_priv_lvl, validate_authen_type, validate_authen_service}
use tacquito.Fields.Authen.{validate_authen_user, validate_authen_port, validate_authen_rem_addr}
use tacquito.Fields.Author.{validate_authen_method, validate_args}
use tacquito.Fields.Acct.{validate_acct_request_flag}
use tacquito.Wire.{read_string, read_arg_lens, read_args, arg_len_bytes, arg_bytes, args_len}

abbrev pub acct_request_len : ℕ
acct_request_len = 0x9

pub record AcctRequest : Type 0 where
  pub flags : ℕ
  pub method : ℕ
  pub priv_lvl : ℕ
  pub type : ℕ
  pub service : ℕ
  pub user : Bytes
  pub port : Bytes
  pub rem_addr : Bytes
  pub args : List Bytes

abbrev pub set_acct_request_flag : ℕ → AcctRequest → AcctRequest
set_acct_request_flag v a = record a { flags = v }

abbrev pub set_acct_request_method : ℕ → AcctRequest → AcctRequest
set_acct_request_method v a = record a { method = v }

abbrev pub set_acct_request_priv_lvl : ℕ → AcctRequest → AcctRequest
set_acct_request_priv_lvl v a = record a { priv_lvl = v }

abbrev pub set_acct_request_type : ℕ → AcctRequest → AcctRequest
set_acct_request_type v a = record a { type = v }

abbrev pub set_acct_request_service : ℕ → AcctRequest → AcctRequest
set_acct_request_service v a = record a { service = v }

abbrev pub set_acct_request_user : Bytes → AcctRequest → AcctRequest
set_acct_request_user v a = record a { user = v }

abbrev pub set_acct_request_port : Bytes → AcctRequest → AcctRequest
set_acct_request_port v a = record a { port = v }

abbrev pub set_acct_request_rem_addr : Bytes → AcctRequest → AcctRequest
set_acct_request_rem_addr v a = record a { rem_addr = v }

abbrev pub set_acct_request_args : List Bytes → AcctRequest → AcctRequest
set_acct_request_args v a = record a { args = v }

-- The options are applied in order to the zero packet.
abbrev pub new_acct_request : List (AcctRequest → AcctRequest) → AcctRequest
new_acct_request opts = apply_options opts (record {
  flags = 0;
  method = 0;
  priv_lvl = 0;
  type = 0;
  service = 0;
  user = [];
  port = [];
  rem_addr = [];
  args = [];
})

unfoldable pub validate : AcctRequest → Result (Unit {0})
validate a = do
  validate_all (
      validate_authen_method a.method
      ∷ validate_priv_lvl a.priv_lvl
      ∷ validate_authen_type a.type
      ∷ validate_authen_service a.service
      ∷ validate_authen_user a.user
      ∷ validate_authen_port a.port
      ∷ validate_authen_rem_addr a.rem_addr
      ∷ validate_acct_request_flag a.flags
      ∷ [])
  validate_args a.args

unfoldable pub marshal_binary : AcctRequest → Result Bytes
marshal_binary a = do
  validate a
  ok (
      a.flags
      ∷ a.method
      ∷ a.priv_lvl
      ∷ a.type
      ∷ a.service
      ∷ length a.user % 256
      ∷ length a.port % 256
      ∷ length a.rem_addr % 256
      ∷ length a.args % 256
      ∷ (arg_len_bytes a.args ++ (a.user ++ (a.port ++ (a.rem_addr ++ arg_bytes a.args)))))

unfoldable pub len : AcctRequest → ℕ
len a = length a.user + length a.port + length a.rem_addr + args_len a.args

unfoldable pub unmarshal_binary : Bytes → Result AcctRequest
unfolding len
unmarshal_binary s =
    let user_len = get_or s 5 0 in
    let port_len = get_or s 6 0 in
    let rem_addr_len = get_or s 7 0 in
    let (arg_lens, total_arg_len, b1) = read_arg_lens (get_or s 8 0) (drop 9 s) in
    let (user, b2) = read_string user_len b1 in
    let (port, b3) = read_string port_len b2 in
    let (rem_addr, b4) = read_string rem_addr_len b3 in
    let (args, b5) = read_args arg_lens b4 in
    let a : AcctRequest = record {
      flags = get_or s 0 0;
      method = get_or s 1 0;
      priv_lvl = get_or s 2 0;
      type = get_or s 3 0;
      service = get_or s 4 0;
      user = user;
      port = port;
      rem_addr = rem_addr;
      args = args;
    } in
    if ltb (length s) acct_request_len
    then err too_small
    else if not (len a == user_len + port_len + rem_addr_len + total_arg_len)
    then err bad_secret
    else validate a >> ok a
