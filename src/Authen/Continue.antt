-- ===== src/Authen/Continue.antt =====
-- authenticate.go: `AuthenContinue`.
pub mod Codec
use tacquito.Base.{apply_options, ℕ, ◌+◌, Bool, true, false, not, List, [], ◌∷◌, ◌++◌, length}
use tacquito.Base.{ltb, ◌==◌, if◌then◌else◌, Bytes, none, Result, ok, err, ◌>>=◌, ◌>>◌}
use tacquito.Base.{too_small, bad_secret}
use tacquito.Fields.{validate_all}
use tacquito.Fields.Authen.{validate_authen_user_message, validate_authen_data}
use tacquito.Wire.{read_byte, read_uint16, read_string, append_uint16}

abbrev pub authen_continue_len : ℕ
authen_continue_len = 0x05

pub record AuthenContinue : Type 0 where
  pub flags : ℕ
  pub user_message : Bytes
  pub content : Bytes

abbrev pub set_authen_continue_flag : ℕ → AuthenContinue → AuthenContinue
set_authen_continue_flag v a = record a { flags = v }

abbrev pub set_authen_continue_user_message : Bytes → AuthenContinue → AuthenContinue
set_authen_continue_user_message v a = record a { user_message = v }

abbrev pub set_authen_continue_data : Bytes → AuthenContinue → AuthenContinue
set_authen_continue_data v a = record a { content = v }

-- The default comes before the options.
abbrev pub new_authen_continue : List (AuthenContinue → AuthenContinue) → AuthenContinue
new_authen_continue opts =
    apply_options (set_authen_continue_flag 0 ∷ opts)
      (record { flags = 0; user_message = []; content = [] })

unfoldable pub validate : AuthenContinue → Result (Unit {0})
validate a =
    validate_all
      (validate_authen_user_message a.user_message ∷ validate_authen_data none a.content ∷ [])

unfoldable pub marshal_binary : AuthenContinue → Result Bytes
unfolding append_uint16
marshal_binary a = do
  validate a
  let buf = append_uint16 (append_uint16 [] (length a.user_message)) (length a.content)
  ok ((buf ++ (a.flags ∷ [])) ++ (a.user_message ++ a.content))

unfoldable pub len : AuthenContinue → ℕ
len a = length a.user_message + length a.content

unfoldable pub unmarshal_binary : Bytes → Result AuthenContinue
unfolding len
unmarshal_binary s =
    let (user_message_len, b1) = read_uint16 s in
    let (data_len, b2) = read_uint16 b1 in
    let (flags, b3) = read_byte b2 in
    let (user_message, b4) = read_string user_message_len b3 in
    let (content, b5) = read_string data_len b4 in
    let a : AuthenContinue = record {
      flags = flags;
      user_message = user_message;
      content = content;
    } in
    if ltb (length s) authen_continue_len
    then err too_small
    else if not (len a == user_message_len + data_len)
    then err bad_secret
    else validate a >> ok a
