-- ===== src/Config/Aaa.antt =====
-- cmds/server/config/aaa.go and provider.go: the handlers of a user, which deny where none was
-- configured, and the users of a scope.
pub mod Laws
use tacquito.Base.{Option, none, some, List, [], ◌∷◌, Bytes, codes, if◌then◌else◌, apply_options}
use tacquito.Text.{equals}
use tacquito.Fields.Authen.{authen_status_fail}
use tacquito.Fields.Author.{author_status_fail}
use tacquito.Fields.Acct.{acct_reply_status_error}
use tacquito.Server.Response.{Request}
use tacquito.Server.Serve.{Script}
use tacquito.Handlers.{Handler, Aaa, reply_authen, reply_author, reply_acct}

unfoldable pub default_authenticator : Request → Script Handler
default_authenticator req = reply_authen authen_status_fail (codes "authentication denied")

unfoldable pub default_authorizer : Request → Script Handler
default_authorizer req = reply_author author_status_fail (codes "authorization denied")

unfoldable pub default_accounter : Request → Script Handler
default_accounter req = reply_acct acct_reply_status_error (codes "accounting denied")

abbrev pub set_aaa_authenticator : (Request → Script Handler) → Aaa → Aaa
set_aaa_authenticator h a = record a { authenticator = h }

abbrev pub set_aaa_authorizer : (Request → Script Handler) → Aaa → Aaa
set_aaa_authorizer h a = record a { authorizer = h }

abbrev pub set_aaa_accounter : (Request → Script Handler) → Aaa → Aaa
set_aaa_accounter h a = record a { accounter = h }

unfoldable pub new_aaa : List (Aaa → Aaa) → Aaa
new_aaa opts = apply_options opts (record {
  authenticator = default_authenticator;
  authorizer = default_authorizer;
  accounter = default_accounter;
})

-- `Provider`, a map from user names: a list whose first entry for a name counts.
abbrev pub Users : Type 0
Users = List (Bytes × Aaa)

abbrev pub no_users : Users
no_users = []

abbrev pub add_user : Bytes → Aaa → Users → Users
add_user username a users = (username, a) ∷ users

-- `Provider.GetUser`.
unfoldable pub get_user : Users → Bytes → Option Aaa
get_user [] username = none
get_user (user ∷ users) username =
    if equals user.0 username then some user.1 else get_user users username
