-- ===== src/Config/Bcrypt.antt =====
-- cmds/server/config/authenticators: shared.go and bcrypt.go. The comparison of bcrypt is a parameter;
-- a keychain is a function that is none where the interface is nil.
pub mod Laws
use tacquito.Base.{
  ℕ, ◌+◌, ◌-◌, ◌*◌, ◌==◌, leb, ◌&&◌, if◌then◌else◌, List, [], ◌∷◌, length, Bytes, codes, Bool,
}
use tacquito.Base.{
  Option, none, some, Error, Result, ok, err, panic, missing_option, missing_password, ◌>>=◌, ◌>>◌,
}
use tacquito.Fields.Authen.{authen_status_pass, authen_status_fail, authen_status_error}
use tacquito.Authen.Start as AuthenStart
use tacquito.Authen.Continue as AuthenContinue
use tacquito.Authen.Reply as AuthenReply
use tacquito.Server.Response.{Request, authen_reply}
use tacquito.Server.Serve.{Script, call_reply}
use tacquito.Handlers.{Handler, reply_authen}
use tacquito.Config.{Options, option}

-- `GetSecret`: a secret and, if it failed, its error.
abbrev pub GetSecret : Type 0
GetSecret = Bytes → Bytes → Bytes × Option Error

-- `Authenticator`, with its `supportedOptions`.
pub record Authenticator : Type 0 where
  pub username : Bytes
  pub hash : Bytes
  pub group : Bytes
  pub key : Bytes
  pub get_secret : Option GetSecret

unfoldable pub get_continue_password : Request → Result Bytes
get_continue_password req = elim (AuthenContinue.unmarshal_binary req.body) [
  | ok body ↦ ok body.user_message
  | err e ↦ err missing_password
  | panic ↦ panic
]

-- `Methods.GetPassword`.
unfoldable pub get_password : Request → Result Bytes
unfolding get_continue_password
get_password req = elim (AuthenStart.unmarshal_binary req.body) [
  | ok body ↦ ok body.content
  | err e ↦ get_continue_password req
  | panic ↦ panic
]

-- `hex.DecodeString`: two digits to a byte.
hex_digit : ℕ → Option ℕ
hex_digit c =
    if leb 48 c && leb c 57
    then some (c - 48)
    else if leb 97 c && leb c 102
    then some (c - 87)
    else if leb 65 c && leb c 70
    then some (c - 55)
    else none

hex_pair : Option ℕ → Option ℕ → Option Bytes → Option Bytes
hex_pair (some high) (some low) (some rest) = some ((16 * high + low) ∷ rest)
hex_pair _ _ _ = none

unfoldable pub decode_string : Bytes → Option Bytes
unfolding hex_digit hex_pair
decode_string [] = some []
decode_string (high ∷ []) = none
decode_string (high ∷ low ∷ rest) = hex_pair (hex_digit high) (hex_digit low) (decode_string rest)

pub record SupportedOptions : Type 0 where
  pub hash : Bytes
  pub group : Bytes
  pub key : Bytes

-- A missing key is the name of the user.
unfoldable pub new_supported_options : Bytes → Options → SupportedOptions
new_supported_options username options = record {
  hash = option options (codes "hash");
  group = option options (codes "group");
  key =
      if length (option options (codes "key")) == 0 then username else option options (codes "key");
}

unfoldable pub validate : SupportedOptions → Result (Unit {0})
validate s = if length s.hash == 0 && length s.key == 0 then err missing_option else ok tt

-- `Authenticator.New`, which leaves the keychain at nil.
unfoldable pub new_authenticator : Bytes → Options → Result Authenticator
new_authenticator username options = do
  let opts = new_supported_options username options
  validate opts
  ok (record {
    username = username;
    hash = opts.hash;
    group = opts.group;
    key = opts.key;
    get_secret = none;
  })

abbrev pub login_failure : Script Handler
login_failure = reply_authen authen_status_fail (codes "login failure")

abbrev pub login_success : Script Handler
login_success = reply_authen authen_status_pass (codes "login success")

-- `compare` is `CompareHashAndPassword` with a nil error.
module _ (compare : Bytes → Bytes → Bool) where
  compare_password : Bytes → Bytes → Script Handler
  compare_password expected password =
      if compare expected password then login_success else login_failure

  -- The hash of the options.
  check_hash : Option Bytes → Bytes → Script Handler
  unfolding compare_password
  check_hash none password = login_failure
  check_hash (some expected) password = compare_password expected password

  -- The secret of the keychain: the code goes on after its reply to a failure.
  check_secret : Bytes × Option Error → Bytes → Script Handler
  unfolding compare_password
  check_secret (expected, none) password = compare_password expected password
  check_secret (expected, some e) password =
      call_reply
        (authen_reply (
          AuthenReply.new_authen_reply (
            AuthenReply.set_authen_reply_status authen_status_fail
            ∷ AuthenReply.set_authen_reply_server_msg (codes "login failure")
            ∷ [])))
        (λ _. compare_password expected password)

  -- A call of a nil interface panics.
  check_keychain : Authenticator → Option GetSecret → Bytes → Result (Script Handler)
  unfolding check_secret
  check_keychain a none password = panic
  check_keychain a (some get_secret) password =
      ok (check_secret (get_secret a.username a.group) password)

  check_password : Authenticator → Result Bytes → Result (Script Handler)
  unfolding check_hash check_keychain
  check_password a (err e) = ok (reply_authen authen_status_error (codes "missing password"))
  check_password a panic = panic
  check_password a (ok password) =
      if length a.hash == 0
      then check_keychain a a.get_secret password
      else ok (check_hash (decode_string a.hash) password)

  -- `Authenticator.Handle`.
  unfoldable pub handle : Authenticator → Request → Result (Script Handler)
  unfolding check_password
  handle a req = check_password a (get_password req)
