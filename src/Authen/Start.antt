-- ===== src/Authen/Start.antt =====
-- authenticate.go: `AuthenStart`. A decoder that fails leaves its receiver half filled; no caller
-- reads it then, so an error carries no value here.
pub mod Codec
use tacquito.Base.{
  apply_options, ℕ, ◌+◌, ◌%◌, Bool, true, false, not, List, [], ◌∷◌, ◌++◌, length, drop, get_or,
}
use tacquito.Base.{ltb, ◌==◌, if◌then◌else◌, Bytes, Option, some, Result, ok, err, ◌>>=◌, ◌>>◌}
use tacquito.Base.{Error, too_small, bad_secret}
use tacquito.Fields.{validate_all}
use tacquito.Fields.Authen.{authen_type_not_set, validate_authen_action, validate_priv_lvl}
use tacquito.Fields.Authen.{validate_authen_type, validate_authen_service, validate_authen_user}
use tacquito.Fields.Authen.{validate_authen_port, validate_authen_rem_addr, validate_authen_data}
use tacquito.Wire.{read_byte, read_string}

abbrev pub authen_start_len : ℕ
authen_start_len = 0x08

pub record AuthenStart : Type 0 where
  pub action : ℕ
  pub priv_lvl : ℕ
  pub type : ℕ
  pub service : ℕ
  pub user : Bytes
  pub port : Bytes
  pub rem_addr : Bytes
  pub content : Bytes

abbrev pub set_authen_start_action : ℕ → AuthenStart → AuthenStart
set_authen_start_action v a = record a { action = v }

abbrev pub set_authen_start_priv_lvl : ℕ → AuthenStart → AuthenStart
set_authen_start_priv_lvl v a = record a { priv_lvl = v }

abbrev pub set_authen_start_type : ℕ → AuthenStart → AuthenStart
set_authen_start_type v a = record a { type = v }

abbrev pub set_authen_start_service : ℕ → AuthenStart → AuthenStart
set_authen_start_service v a = record a { service = v }

abbrev pub set_authen_start_user : Bytes → AuthenStart → AuthenStart
set_authen_start_user v a = record a { user = v }

abbrev pub set_authen_start_port : Bytes → AuthenStart → AuthenStart
set_authen_start_port v a = record a { port = v }

abbrev pub set_authen_start_rem_addr : Bytes → AuthenStart → AuthenStart
set_authen_start_rem_addr v a = record a { rem_addr = v }

abbrev pub set_authen_start_data : Bytes → AuthenStart → AuthenStart
set_authen_start_data v a = record a { content = v }

-- The options are applied in order to the zero packet.
abbrev pub new_authen_start : List (AuthenStart → AuthenStart) → AuthenStart
new_authen_start opts = apply_options opts (record {
  action = 0;
  priv_lvl = 0;
  type = 0;
  service = 0;
  user = [];
  port = [];
  rem_addr = [];
  content = [];
})

-- Every field is given the packet's type as its condition.
unfoldable pub validate : AuthenStart → Result (Unit {0})
validate a =
    if a.type == authen_type_not_set
    then err Error.authen_type_not_set
    else validate_all (
        validate_authen_action a.action
        ∷ validate_priv_lvl a.priv_lvl
        ∷ validate_authen_type a.type
        ∷ validate_authen_service a.service
        ∷ validate_authen_user a.user
        ∷ validate_authen_port a.port
        ∷ validate_authen_rem_addr a.rem_addr
        ∷ validate_authen_data (some a.type) a.content
        ∷ [])

unfoldable pub marshal_binary : AuthenStart → Result Bytes
marshal_binary a = do
  validate a
  ok (
      a.action
      ∷ a.priv_lvl
      ∷ a.type
      ∷ a.service
      ∷ length a.user % 256
      ∷ length a.port % 256
      ∷ length a.rem_addr % 256
      ∷ length a.content % 256
      ∷ (a.user ++ (a.port ++ (a.rem_addr ++ a.content))))

unfoldable pub len : AuthenStart → ℕ
len a = length a.user + length a.port + length a.rem_addr + length a.content

unfoldable pub unmarshal_binary : Bytes → Result AuthenStart
unfolding len
unmarshal_binary s =
    let (user_len, b1) = read_byte (drop 4 s) in
    let (port_len, b2) = read_byte b1 in
    let (rem_addr_len, b3) = read_byte b2 in
    let (data_len, b4) = read_byte b3 in
    let (user, b5) = read_string user_len b4 in
    let (port, b6) = read_string port_len b5 in
    let (rem_addr, b7) = read_string rem_addr_len b6 in
    let (content, b8) = read_string data_len b7 in
    let a : AuthenStart = record {
      action = get_or s 0 0;
      priv_lvl = get_or s 1 0;
      type = get_or s 2 0;
      service = get_or s 3 0;
      user = user;
      port = port;
      rem_addr = rem_addr;
      content = content;
    } in
    if ltb (length s) authen_start_len
    then err too_small
    else if not (len a == user_len + port_len + rem_addr_len + data_len)
    then err bad_secret
    else validate a >> ok a
