-- ===== src/Tests/Accounts.antt =====
-- The bcrypt authenticator and the accounter of syslog on concrete requests.
use tacquito.Base.{
  ◌≡◌, ◌⊎◌, refl, arith, true, if◌then◌else◌, [], ◌∷◌, Bytes, codes, Option, some, none, ok, panic,
}
use tacquito.Server.Response.{Request}
use tacquito.Server.Serve.{Script}
use tacquito.Handlers.{Handler}
use tacquito.Handlers.Denials.{DenyOnly}
use tacquito.Text.{equals}
use tacquito.Config.{Options, option}
use tacquito.Config.Bcrypt.{Authenticator, new_authenticator, get_password, handle, login_success}
use tacquito.Config.Bcrypt.Laws.{Verified, new_authenticator-Verified, new_authenticator-panic}
use tacquito.Acct.Request.{AcctRequest}
use tacquito.Config.Accounting.{handle_syslog}
use tacquito.Config.Accounting.Laws.{Recordable, Acknowledges, handle_syslog-Recordable}
use tacquito.Tests.Toy.{opening}

-- The hexadecimal digits of "pw".
abbrev hashed : Options
hashed name = if equals name (codes "hash") then some (codes "7077") else none

abbrev bare : Options
bare name = none

abbrev bob : Bytes → Authenticator
bob hash = record {
  username = codes "bob";
  hash = hash;
  group = [];
  key = codes "bob";
  get_secret = none;
}

-- The password "pw" in a continue packet.
abbrev password_request : Request
password_request = record {
  header = record opening { seq_no = 3; len = 7 };
  body = 0 ∷ 2 ∷ 0 ∷ 0 ∷ 0 ∷ 112 ∷ 119 ∷ [];
}

hashed_made : new_authenticator (codes "bob") hashed ≡ ok (bob (codes "7077"))
unfolding new_authenticator tacquito.Config.Bcrypt.validate
    tacquito.Config.Bcrypt.new_supported_options
hashed_made = refl

bare_made : new_authenticator (codes "bob") bare ≡ ok (bob [])
unfolding new_authenticator tacquito.Config.Bcrypt.validate
    tacquito.Config.Bcrypt.new_supported_options
bare_made = refl

password_given : get_password password_request ≡ ok (codes "pw")
unfolding get_password tacquito.Authen.Start.unmarshal_binary
    tacquito.Authen.Continue.unmarshal_binary tacquito.Wire.read_string tacquito.Wire.read_byte
    tacquito.Wire.read_uint16 tacquito.Authen.Continue.validate tacquito.Fields.validate_all
    tacquito.Fields.Authen.validate_authen_user_message tacquito.Wire.is_all_ascii
    tacquito.Fields.Authen.validate_authen_data
password_given = refl

new_authenticator-Verified_example :
    (Verified equals (option hashed (codes "hash")) password_request
      × (handle equals (bob (codes "7077")) password_request ≡ ok login_success))
    ⊎ ((Verified equals (option hashed (codes "hash")) password_request → ⊥)
        × (script : Script Handler) × (handle equals (bob (codes "7077")) password_request
            ≡ ok script)
        × DenyOnly script)
new_authenticator-Verified_example =
    new_authenticator-Verified equals (codes "bob") hashed (bob (codes "7077")) password_request
      hashed_made (omega arith)

new_authenticator-panic_example : handle equals (bob []) password_request ≡ panic
new_authenticator-panic_example =
    new_authenticator-panic equals (codes "bob") bare (bob []) password_request (codes "pw")
      bare_made refl password_given

-- A start record of the user "bob".
abbrev start_record : Request
start_record = record {
  header = record opening { type = 3; len = 12 };
  body = 2 ∷ 1 ∷ 1 ∷ 1 ∷ 1 ∷ 3 ∷ 0 ∷ 0 ∷ 0 ∷ 98 ∷ 111 ∷ 98 ∷ [];
}

abbrev user_only : AcctRequest → Option Bytes
user_only a = some a.user

handle_syslog-Recordable_example :
    ((json : Bytes) × Recordable user_only (λ b. true) start_record json
      × ((handle_syslog user_only (λ b. true) start_record).0 ≡ json ∷ [])
      × Acknowledges (handle_syslog user_only (λ b. true) start_record).1)
    ⊎ ((((json : Bytes) × Recordable user_only (λ b. true) start_record json) → ⊥)
        × DenyOnly (handle_syslog user_only (λ b. true) start_record).1)
handle_syslog-Recordable_example = handle_syslog-Recordable user_only (λ b. true) start_record
