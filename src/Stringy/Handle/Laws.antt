-- ===== src/Stringy/Handle/Laws.antt =====
-- When the authorizer of a user passes a request.
use tacquito.Base.{ℕ, ◌≡◌, ◌≢◌, ◌⊎◌, inl, inr, refl, sym, ◌∙◌, arith, Bool, true, false, Bool-cases}
use tacquito.Base.{List, [], ◌∷◌, Bytes, codes, Option, Result, ok}
use mathlib.Core.List.{Memᴰ}
use mathlib.Core.List.Memᴰ
use tacquito.Text.{trim_space}
use tacquito.Text.Laws.{ne→equals}
use tacquito.Fields.Author.{author_status_pass_add, author_status_pass_repl, author_status_fail}
use tacquito.Author.Args.{command, command_args}
use tacquito.Author.Request as AuthorRequest
use tacquito.Author.Reply as AuthorReply
use tacquito.Server.Response.{Request, author_reply}
use tacquito.Server.Serve.{Script, finish, call_reply}
use tacquito.Handlers.{Handler}
use tacquito.Handlers.Denials.{DenyOnly}
use tacquito.Config.{User}
use tacquito.Stringy.Command.{is_command_based}
use tacquito.Stringy.Command as Commands
use tacquito.Stringy.Command.Laws.{Permits, evaluate-Permits}
use tacquito.Stringy.Session as Sessions
use tacquito.Stringy.Session.Laws.{GrantedBy, evaluate-GrantedBy, evaluate-status}
use tacquito.Stringy.Handle.{command_reply, session_reply, decide, handle, handle_body}

-- One reply, with a passing status.
abbrev pub PassOnce : Script Handler → Type 0
PassOnce (call_reply (author_reply a) k) =
    ((a.status ≡ author_status_pass_add) ⊎ (a.status ≡ author_status_pass_repl))
    × ((r : Result Bytes) → k r ≡ finish)
PassOnce _ = true ≡ false

module _ (match_string : Bytes → Bytes → Option Bool) where
  -- The user's commands permit the command, or some service is granted to the session.
  pub data Authorized (u : User) (args : List Bytes) : Type 0 where
    by_command :
        is_command_based args ≡ true
        → Permits match_string (command args) (command_args args) u.commands
        → Authorized u args
    by_session :
        {x : Bytes}
        → is_command_based args ≡ false
        → GrantedBy (Sessions.request_args u args) u.services x
        → Authorized u args

  session_reply-cases :
      (args : List Bytes) (status : ℕ)
      → (status ≡ author_status_pass_add) ⊎ (status ≡ author_status_pass_repl)
      → (((x : Bytes) × Memᴰ x args) × PassOnce (session_reply (args, status)))
        ⊎ ((((x : Bytes) × Memᴰ x args) → ⊥) × DenyOnly (session_reply (args, status)))
  unfolding session_reply
  session_reply-cases [] status h = inr (λ m. Memᴰ.not-nil m.1, (omega arith, λ r. tt))
  session_reply-cases (x ∷ args) status h = inl ((x, Memᴰ.head refl), (h, λ r. refl))

  no_command :
      (u : User) (args : List Bytes)
      → is_command_based args ≡ true
      → (Permits match_string (command args) (command_args args) u.commands → ⊥)
      → Authorized u args
      → ⊥
  no_command u args based refused (by_command _ permits) = refused permits
  no_command u args based refused (by_session not_based _) = let e = sym based ∙ not_based in cc

  no_session :
      (u : User) (args : List Bytes)
      → is_command_based args ≡ false
      → (((x : Bytes) × Memᴰ x (Sessions.evaluate u args).0) → ⊥)
      → Authorized u args
      → ⊥
  no_session u args not_based empty (by_command based _) = let e = sym based ∙ not_based in cc
  no_session u args not_based empty (by_session {x = x} _ g) =
      empty (trim_space x, (evaluate-GrantedBy u args (trim_space x)).1.1 (x, g, refl))

  command_reply-cases :
      (b : Bool)
      → ((b ≡ true) × PassOnce (command_reply b)) ⊎ ((b ≡ false) × DenyOnly (command_reply b))
  unfolding command_reply
  command_reply-cases true = inl (refl, (inl refl, λ r. refl))
  command_reply-cases false = inr (refl, (omega arith, λ r. tt))

  decide-cases :
      (u : User) (args : List Bytes)
      → (Authorized u args × PassOnce (decide match_string u args))
        ⊎ ((Authorized u args → ⊥) × DenyOnly (decide match_string u args))
  unfolding decide
  decide-cases u args = elim (Bool-cases (is_command_based args)) [
    | inl based ↦
        let spec = evaluate-Permits match_string u.commands args in
        elim (command_reply-cases (Commands.evaluate match_string u.commands args)) [
          | inl (permits, passes) ↦ inl (by_command based (spec.0 permits), rw based passes)
          | inr (refused, denies) ↦ inr (
            no_command u args based (λ p. (let e = sym refused ∙ spec.1 p in cc)),
            rw based denies,
          )
        ]
    | inr not_based ↦
        let (response, status) = Sessions.evaluate u args in
        elim (session_reply-cases response status (evaluate-status u args)) [
          | inl ((x, found), passes) ↦
              let (y, g, _) = (evaluate-GrantedBy u args x).1.0 found in
              inl (by_session not_based g, rw not_based passes)
          | inr (empty, denies) ↦ inr (no_session u args not_based empty, rw not_based denies)
        ]
  ]

  -- For a request that decodes and is by another user, the authorizer replies that it is not
  -- authorized and then decides on the request all the same: if its own user is authorized to do it, the other gets
  -- a second reply, which passes.
  pub handle_mismatch :
      (u : User) (req : Request) (body : AuthorRequest.AuthorRequest)
      → AuthorRequest.unmarshal_binary req.body ≡ ok body
      → u.name ≢ body.user
      → (handle match_string u req
          ≡ call_reply
              (author_reply (
                AuthorReply.new_author_reply (
                  AuthorReply.set_author_reply_status author_status_fail
                  ∷ AuthorReply.set_author_reply_server_msg (codes "not authorized")
                  ∷ [])))
              (λ _. decide match_string u body.args))
        × ((Authorized u body.args × PassOnce (decide match_string u body.args))
            ⊎ ((Authorized u body.args → ⊥) × DenyOnly (decide match_string u body.args)))
  unfolding handle handle_body
  handle_mismatch u req body decoded other =
      (rw (decoded, ne→equals u.name body.user other) refl, decide-cases u body.args)
