-- ===== src/Tests/Authorizing.antt =====
-- The authorizer of one user on a shell command, and on a session.
use tacquito.Base.{
  ◌≡◌, ◌⊎◌, ◌↔◌, refl, Bool, false, [], ◌∷◌, ◌++◌, Bytes, codes, Option, some, none, ok,
}
use mathlib.Core.List.{Memᴰ}
use tacquito.Wire.{read_byte, read_string, is_all_ascii, read_args, read_arg_lens, args_len}
use tacquito.Fields.{validate_all}
use tacquito.Fields.Authen.{
  validate_priv_lvl, validate_authen_type, validate_authen_service, validate_authen_user,
  validate_authen_port, validate_authen_rem_addr,
}
use tacquito.Fields.Author.{validate_authen_method, validate_arg, validate_args, author_status_fail}
use tacquito.Text.{equals, trim_space}
use tacquito.Text.Laws.{equals-ne}
use tacquito.Author.Args.Laws.{Distinct}
use tacquito.Author.Request.{AuthorRequest}
use tacquito.Author.Request as AuthorRequests
use tacquito.Author.Reply as AuthorReply
use tacquito.Server.Response.{Request, author_reply}
use tacquito.Server.Serve.{call_reply}
use tacquito.Handlers.Denials.{DenyOnly}
use tacquito.Config.{User, Command, Service, permit}
use tacquito.Stringy.Command as Commands
use tacquito.Stringy.Session as Sessions
use tacquito.Stringy.Session.Laws.{GrantedBy, evaluate-GrantedBy}
use tacquito.Stringy.Handle.{decide, handle}
use tacquito.Stringy.Handle.Laws.{Authorized, PassOnce, handle_mismatch}
use tacquito.Tests.Toy.{opening}

-- An expression matches the text that it spells.
abbrev literally : Bytes → Bytes → Option Bool
literally regexish s = some (equals regexish s)

abbrev show_ip : Command
show_ip = record { name = codes "show"; match = codes "ip" ∷ []; action = permit }

abbrev shell : Service
shell = record {
  name = codes "shell";
  match = [];
  set_values = record { name = codes "priv-lvl"; values = codes "15" ∷ []; optional = false } ∷ [];
  optional = false;
}

abbrev named : Bytes → User
named name = record {
  name = name;
  scopes = codes "lab" ∷ [];
  groups = [];
  services = shell ∷ [];
  commands = show_ip ∷ [];
  authenticator = none;
  accounter = none;
}

abbrev asked : AuthorRequest
asked = record {
  method = 1;
  priv_lvl = 1;
  type = 1;
  service = 1;
  user = codes "bob";
  port = [];
  rem_addr = [];
  args = codes "service=shell" ∷ codes "cmd=show" ∷ codes "cmd-arg=ip" ∷ [];
}

abbrev request : Request
request = record {
  header = record opening { type = 2 };
  body =
      (1 ∷ 1 ∷ 1 ∷ 1 ∷ 3 ∷ 0 ∷ 0 ∷ 3 ∷ 13 ∷ 8 ∷ 10 ∷ [])
      ++ codes "bobservice=shellcmd=showcmd-arg=ip";
}

request_decodes : AuthorRequests.unmarshal_binary request.body ≡ ok asked
unfolding AuthorRequests.unmarshal_binary AuthorRequests.validate AuthorRequests.len validate_all
    validate_authen_method validate_priv_lvl validate_authen_type validate_authen_service
    validate_authen_user is_all_ascii validate_authen_port validate_authen_rem_addr validate_args
    validate_arg read_string read_byte read_arg_lens read_args args_len
request_decodes = refl

handle_mismatch_example :
    (handle literally (named (codes "eve")) request
      ≡ call_reply
          (author_reply (
            AuthorReply.new_author_reply (
              AuthorReply.set_author_reply_status author_status_fail
              ∷ AuthorReply.set_author_reply_server_msg (codes "not authorized")
              ∷ [])))
          (λ _. decide literally (named (codes "eve")) asked.args))
    × ((Authorized literally (named (codes "eve")) asked.args
          × PassOnce (decide literally (named (codes "eve")) asked.args))
        ⊎ ((Authorized literally (named (codes "eve")) asked.args → ⊥)
            × DenyOnly (decide literally (named (codes "eve")) asked.args)))
handle_mismatch_example =
    handle_mismatch literally (named (codes "eve")) request asked request_decodes
      (equals-ne (codes "eve") (codes "bob") refl)

evaluate-GrantedBy_example :
    Distinct (Sessions.evaluate (named (codes "bob")) (codes "service=shell" ∷ [])).0
    × (Memᴰ
          (codes "priv-lvl=15")
          (Sessions.evaluate (named (codes "bob")) (codes "service=shell" ∷ [])).0
        ↔ ((y : Bytes) × GrantedBy
              (Sessions.request_args (named (codes "bob")) (codes "service=shell" ∷ []))
              (shell ∷ [])
              y
            × (trim_space y ≡ codes "priv-lvl=15")))
evaluate-GrantedBy_example =
    evaluate-GrantedBy (named (codes "bob")) (codes "service=shell" ∷ []) (codes "priv-lvl=15")
