-- ===== src/Handlers.antt =====
-- cmds/server/handlers: `Start`, which routes by the header's type, `AuthenticateStart`, the ASCII and
-- PAP logins, and the entries to a user's authorizer and accounter. Counters and contexts are left
-- out, and the records that go to the log are in a child; a `ResponseLogger` registers a writer.
pub mod Denials
pub mod Grants
pub mod Span
pub mod Records
pub mod Router
pub mod Routing
pub mod Steps
use tacquito.Base.{
  ℕ, ◌==◌, Bool, true, false, ◌&&◌, if◌then◌else◌, List, [], ◌∷◌, ◌++◌, length, Bytes, codes,
}
use tacquito.Base.{Option, none, some, Result, ok, err, panic}
use tacquito.Fields.Header.{
  authenticate, authorize, accounting, minor_version_default, minor_version_one, flag_has,
}
use tacquito.Fields.Authen.{
  authen_action_login, authen_type_not_set, authen_type_ascii, authen_type_pap, authen_type_chap,
}
use tacquito.Fields.Authen.{authen_type_mschap, authen_type_mschapv2, authen_service_enable}
use tacquito.Fields.Authen.{
  authen_status_fail, authen_status_error, authen_status_get_user, authen_status_get_pass,
}
use tacquito.Fields.Authen.{authen_reply_flag_no_echo, authen_continue_flag_abort}
use tacquito.Fields.Author.{author_status_fail, author_status_error}
use tacquito.Fields.Acct.{acct_reply_status_error}
use tacquito.Authen.Start as AuthenStart
use tacquito.Authen.Continue as AuthenContinue
use tacquito.Authen.Reply as AuthenReply
use tacquito.Author.Request as AuthorRequest
use tacquito.Author.Reply as AuthorReply
use tacquito.Acct.Request as AcctRequest
use tacquito.Acct.Reply as AcctReply
use tacquito.Server.Response.{Request, Body, authen_reply, author_reply, acct_reply}
use tacquito.Server.Serve.{Script, finish, call_reply, call_next, call_register_writer}
use tacquito.Handlers.Router.{Route, ascii, pap, route_of}

-- The handlers that wait for a packet. The ASCII ones are methods of one `AuthenticateASCII`, whose
-- user name they carry.
pub data Handler : Type 0 where
  entry : Handler
  get_username : Bytes → Handler
  get_password : Bytes → Handler

-- `AAA` of cmds/server/config/aaa.go: the handlers of a user, which `NewAAA` makes all three.
pub record Aaa : Type 0 where
  pub authenticator : Request → Script Handler
  pub authorizer : Request → Script Handler
  pub accounter : Request → Script Handler

-- `response.Reply(NewAuthenReply(…))`, after which the handler returns.
abbrev pub reply_authen : ℕ → Bytes → Script Handler
reply_authen status msg =
    call_reply
      (authen_reply (
        AuthenReply.new_authen_reply (
          AuthenReply.set_authen_reply_status status
          ∷ AuthenReply.set_authen_reply_server_msg msg
          ∷ [])))
      (λ _. finish)

abbrev pub reply_author : ℕ → Bytes → Script Handler
reply_author status msg =
    call_reply
      (author_reply (
        AuthorReply.new_author_reply (
          AuthorReply.set_author_reply_status status
          ∷ AuthorReply.set_author_reply_server_msg msg
          ∷ [])))
      (λ _. finish)

abbrev pub reply_acct : ℕ → Bytes → Script Handler
reply_acct status msg =
    call_reply
      (acct_reply (
        AcctReply.new_acct_reply
          (AcctReply.set_acct_reply_status status ∷ AcctReply.set_acct_reply_server_msg msg ∷ [])))
      (λ _. finish)

-- `authenticateContinueStop`: whether the packet asks for an end.
unfoldable pub continue_stop : Request → Bool
continue_stop req = elim (AuthenContinue.unmarshal_binary req.body) [
  | ok body ↦ flag_has body.flags authen_continue_flag_abort
  | err e ↦ false
  | panic ↦ false
]

abbrev pub stopped : Script Handler
stopped =
    reply_authen authen_status_fail (codes "ending per client request flag AuthenContinueFlagAbort")

-- `get_user` is the provider's `GetUser`, `print_id` what `fmt` prints of a session identifier.
module _ (get_user : Bytes → Option Aaa) (print_id : ℕ → Bytes) where
  -- The password prompt of `getUsername`, with the name that it has.
  abbrev pub ask_password : Bytes → Script Handler
  ask_password username = call_next (get_password username) (
      call_reply
        (authen_reply (
          AuthenReply.new_authen_reply (
            AuthenReply.set_authen_reply_status authen_status_get_pass
            ∷ AuthenReply.set_authen_reply_server_msg (codes "password:")
            ∷ AuthenReply.set_authen_reply_flag authen_reply_flag_no_echo
            ∷ [])))
        (λ _. finish))

  -- No decoder of a body panics.
  read_username : Result AuthenContinue.AuthenContinue → Script Handler
  read_username (err e) =
      reply_authen authen_status_error
        (codes "expected authenticate continue packet for AuthenStatusGetUser")
  read_username panic = finish
  read_username (ok body) =
      if length body.user_message == 0
      then reply_authen authen_status_error (codes "missing UserMessage, containing the username")
      else ask_password body.user_message

  pub run_get_username : Bytes → Request → Script Handler
  unfolding read_username
  run_get_username username req =
      if continue_stop req
      then stopped
      else if length username == 0
      then read_username (AuthenContinue.unmarshal_binary req.body)
      else ask_password username

  -- `c.Authenticate.Handle(response, request)` for a user that there is.
  authenticate_user : Bytes → Option Aaa → Request → Script Handler
  authenticate_user username none req =
      reply_authen authen_status_fail (codes "authentication denied [" ++ (username ++ codes "]"))
  authenticate_user username (some c) req = c.authenticator req

  pub read_password : Bytes → Request → Result AuthenContinue.AuthenContinue → Script Handler
  unfolding authenticate_user
  read_password username req (err e) =
      reply_authen authen_status_error
        (codes "expected authenticate continue packet for AuthenStatusGetPass")
  read_password username req panic = finish
  read_password username req (ok body) =
      if length body.user_message == 0
      then reply_authen authen_status_error (codes "unknown username or password")
      else authenticate_user username (get_user username) req

  run_get_password : Bytes → Request → Script Handler
  unfolding read_password
  run_get_password username req =
      if continue_stop req
      then stopped
      else read_password username req (AuthenContinue.unmarshal_binary req.body)

  -- `AuthenticateASCII.Handle`.
  run_ascii : Bytes → Request → Script Handler
  unfolding run_get_username
  run_ascii username req =
      if continue_stop req
      then stopped
      else if length username == 0
      then call_next (get_username username)
          (reply_authen authen_status_get_user (codes "username:"))
      else run_get_username username req

  -- `AuthenticatePAP.Handle`, with the packet that it decodes again.
  run_pap : Request → AuthenStart.AuthenStart → Script Handler
  unfolding authenticate_user
  run_pap req body =
      if length body.user == 0
      then reply_authen authen_status_error (codes "missing username")
      else if length body.content == 0
      then reply_authen authen_status_error (codes "missing password")
      else authenticate_user body.user (get_user body.user) req

  run_route : Request → AuthenStart.AuthenStart → Option Route → Script Handler
  unfolding run_ascii run_pap
  run_route req body (some ascii) = run_ascii body.user req
  run_route req body (some pap) = run_pap req body
  run_route req body none =
      reply_authen authen_status_error (codes "unknown authenticate start packet type")

  pub run_authenticate : Request → Result AuthenStart.AuthenStart → Script Handler
  unfolding run_route
  run_authenticate req (ok body) = run_route req body (route_of body req.header.version.minor)
  run_authenticate req (err e) = reply_authen authen_status_error (
      codes "expected authenticate start packet for sessionID ["
      ++ (print_id req.header.session_id ++ codes "]"))
  run_authenticate req panic = finish

  authorize_user : Bytes → Option Aaa → Request → Script Handler
  authorize_user username none req =
      reply_author author_status_fail
        (codes "authorization denied for user [" ++ (username ++ codes "]"))
  authorize_user username (some c) req = c.authorizer req

  run_authorize : Request → Result AuthorRequest.AuthorRequest → Script Handler
  unfolding authorize_user
  run_authorize req (ok body) = authorize_user body.user (get_user body.user) req
  run_authorize req (err e) =
      reply_author author_status_error (codes "invalid AuthorRequest packet")
  run_authorize req panic = finish

  account_user : Bytes → Option Aaa → Request → Script Handler
  account_user username none req =
      reply_acct acct_reply_status_error
        (codes "failed to lookup user [" ++ (username ++ codes "] for accounting login"))
  account_user username (some c) req = c.accounter req

  run_accounting : Request → Result AcctRequest.AcctRequest → Script Handler
  unfolding account_user
  run_accounting req (ok body) = account_user body.user (get_user body.user) req
  run_accounting req (err e) =
      reply_acct acct_reply_status_error (codes "expected accounting request packet")
  run_accounting req panic = finish

  -- `Start.Handle`; any other type is left without a reply.
  run_start : Request → Script Handler
  unfolding run_authenticate run_authorize run_accounting
  run_start req =
      if req.header.type == authenticate
      then run_authenticate req (AuthenStart.unmarshal_binary req.body)
      else if req.header.type == authorize
      then run_authorize req (AuthorRequest.unmarshal_binary req.body)
      else if req.header.type == accounting
      then run_accounting req (AcctRequest.unmarshal_binary req.body)
      else finish

  -- Each stands behind a `ResponseLogger`.
  unfoldable pub handle : Handler → Request → Script Handler
  unfolding run_start run_get_username run_get_password
  handle entry req = call_register_writer (run_start req)
  handle (get_username username) req = call_register_writer (run_get_username username req)
  handle (get_password username) req = call_register_writer (run_get_password username req)
