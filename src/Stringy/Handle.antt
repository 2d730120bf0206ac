-- ===== src/Stringy/Handle.antt =====
-- stringy.go: the authorizer of a user, and the replies of the two that it chooses from. Its last
-- reply, for a request that neither takes, is never reached: a session authorizer is always made.
pub mod Laws
use tacquito.Base.{
  Bool, true, false, not, ℕ, if◌then◌else◌, List, [], ◌∷◌, ◌++◌, Bytes, codes, Option, Result, ok,
  err, panic,
}
use tacquito.Text.{equals, is_empty}
use tacquito.Fields.Author.{author_status_pass_add, author_status_fail, author_status_error}
use tacquito.Author.Request as AuthorRequest
use tacquito.Author.Reply as AuthorReply
use tacquito.Server.Response.{Request, author_reply}
use tacquito.Server.Serve.{Script, finish, call_reply}
use tacquito.Handlers.{Handler, reply_author}
use tacquito.Config.{User, Group, Service, Command}
use tacquito.Stringy.Command.{is_command_based}
use tacquito.Stringy.Command as Commands
use tacquito.Stringy.Session as Sessions

group_services : List Group → List Service
group_services [] = []
group_services (g ∷ groups) = g.services ++ group_services groups

group_commands : List Group → List Command
group_commands [] = []
group_commands (g ∷ groups) = g.commands ++ group_commands groups

-- `ReduceAll`: those of the groups behind those of the user.
unfoldable pub reduce_all : User → User
unfolding group_services group_commands
reduce_all u = record u {
  services = u.services ++ group_services u.groups;
  commands = u.commands ++ group_commands u.groups;
}

-- `CommandBasedAuthorizer.Handle`.
command_reply : Bool → Script Handler
command_reply true = reply_author author_status_pass_add (codes "authorization approved")
command_reply false = reply_author author_status_fail (codes "not authorized")

-- `SessionBasedAuthorizer.Handle`.
session_reply : List Bytes × ℕ → Script Handler
session_reply (args, status) =
    if is_empty args
    then reply_author author_status_fail (codes "not authorized")
    else call_reply
        (author_reply (
          AuthorReply.new_author_reply (
            AuthorReply.set_author_reply_status status
            ∷ AuthorReply.set_author_reply_server_msg (codes "authorization approved")
            ∷ AuthorReply.set_author_reply_args args
            ∷ [])))
        (λ _. finish)

module _ (match_string : Bytes → Bytes → Option Bool) where
  -- The reply to a decoded request, whoever sent it.
  unfoldable pub decide : User → List Bytes → Script Handler
  unfolding command_reply session_reply
  decide u args =
      if is_command_based args
      then command_reply (Commands.evaluate match_string u.commands args)
      else session_reply (Sessions.evaluate u args)

  -- The user is compared, but the code goes on after its reply to another.
  handle_body : User → Result AuthorRequest.AuthorRequest → Script Handler
  handle_body u (ok body) =
      if not (equals u.name body.user)
      then call_reply
          (author_reply (
            AuthorReply.new_author_reply (
              AuthorReply.set_author_reply_status author_status_fail
              ∷ AuthorReply.set_author_reply_server_msg (codes "not authorized")
              ∷ [])))
          (λ _. decide u body.args)
      else decide u body.args
  handle_body u (err e) =
      reply_author author_status_error (codes "unable to decode AuthorRequest packet")
  handle_body u panic = finish

  -- `Authorizer.Handle`.
  unfoldable pub handle : User → Request → Script Handler
  unfolding handle_body
  handle u req = handle_body u (AuthorRequest.unmarshal_binary req.body)

  -- `Authorizer.New`.
  unfoldable pub new_authorizer : User → Request → Script Handler
  new_authorizer u = handle (reduce_all u)
