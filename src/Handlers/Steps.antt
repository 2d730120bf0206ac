-- ===== src/Handlers/Steps.antt =====
-- The steps of a login that goes well: what each handler does with the packet that it waits for.
use tacquito.Base.{
  ℕ, ◌≡◌, ◌≢◌, refl, ne→==, eq→==, false, [], length, Bytes, codes, Option, some, ok,
}
use tacquito.Fields.Header.{authenticate}
use tacquito.Fields.Authen.{authen_status_get_user}
use tacquito.Authen.Start as AuthenStart
use tacquito.Authen.Continue as AuthenContinue
use tacquito.Server.Response.{Request}
use tacquito.Server.Serve.{call_next, call_register_writer}
use tacquito.Handlers.{entry, get_username, get_password, Aaa, continue_stop, handle}
use tacquito.Handlers.Router.{ascii, pap, route_of}
use tacquito.Handlers.{
  reply_authen, ask_password, run_start, run_authenticate, run_route, run_ascii, run_pap,
}
use tacquito.Handlers.{
  run_get_username, read_username, run_get_password, read_password, authenticate_user,
}

module _ (get_user : Bytes → Option Aaa) (print_id : ℕ → Bytes) where
  -- An ASCII login without a name asks for one.
  pub entry-ascii :
      (req : Request) (a : AuthenStart.AuthenStart)
      → req.header.type ≡ authenticate
      → AuthenStart.unmarshal_binary req.body ≡ ok a
      → route_of a req.header.version.minor ≡ some ascii
      → continue_stop req ≡ false
      → a.user ≡ []
      → handle get_user print_id entry req
        ≡ call_register_writer
            (call_next (get_username []) (reply_authen authen_status_get_user (codes "username:")))
  unfolding handle run_start run_authenticate run_route run_ascii
  entry-ascii req a ty d routed go nobody =
      rw (eq→== req.header.type authenticate ty, d, routed, run_route, go, nobody) refl

  pub entry-pap :
      (req : Request) (a : AuthenStart.AuthenStart) (c : Aaa)
      → req.header.type ≡ authenticate
      → AuthenStart.unmarshal_binary req.body ≡ ok a
      → route_of a req.header.version.minor ≡ some pap
      → length a.user ≢ 0
      → length a.content ≢ 0
      → get_user a.user ≡ some c
      → handle get_user print_id entry req ≡ call_register_writer (c.authenticator req)
  unfolding handle run_start run_authenticate run_route run_pap authenticate_user
  entry-pap req a c ty d routed named filled known =
      rw
        (
          eq→== req.header.type authenticate ty,
          d,
          routed,
          run_route,
          ne→== (length a.user) 0 named,
          ne→== (length a.content) 0 filled,
          known,
        )
        refl

  pub get_username-continue :
      (req : Request) (a : AuthenContinue.AuthenContinue)
      → continue_stop req ≡ false
      → AuthenContinue.unmarshal_binary req.body ≡ ok a
      → length a.user_message ≢ 0
      → handle get_user print_id (get_username []) req
        ≡ call_register_writer (ask_password get_user print_id a.user_message)
  unfolding handle run_get_username read_username
  get_username-continue req a go d filled = rw (go, d, ne→== (length a.user_message) 0 filled) refl

  pub get_password-continue :
      (req : Request) (username : Bytes) (a : AuthenContinue.AuthenContinue) (c : Aaa)
      → continue_stop req ≡ false
      → AuthenContinue.unmarshal_binary req.body ≡ ok a
      → length a.user_message ≢ 0
      → get_user username ≡ some c
      → handle get_user print_id (get_password username) req
        ≡ call_register_writer (c.authenticator req)
  unfolding handle run_get_password read_password authenticate_user
  get_password-continue req username a c go d filled known =
      rw (go, d, ne→== (length a.user_message) 0 filled, known) refl
