-- ===== src/Loader/Served.antt =====
-- The handlers of cmds/server on the users that the loader has built.
use tacquito.Base.{ℕ, ◌≡◌, ◌⊎◌, inl, inr, refl, true, Bytes, Option, some, ok, List}
use mathlib.Core.List.{Memᴰ}
use tacquito.Fields.Header.{authenticate, authorize, accounting}
use tacquito.Authen.Start as AuthenStart
use tacquito.Author.Request as AuthorRequest
use tacquito.Acct.Request as AcctRequest
use tacquito.Server.Response.{Request}
use tacquito.Server.Serve.{Script, call_register_writer}
use tacquito.Handlers.{Handler, entry, get_password, Aaa, handle}
use tacquito.Handlers.Denials.{DenyOnly}
use tacquito.Handlers.Grants.{
  Reached, by_password, by_pap, by_authorize, by_accounting, handle-Reached,
}
use tacquito.Config.{User, has_scope, localize_to_scope}
use tacquito.Config.Aaa.{no_users, get_user}
use tacquito.Loader.{Factories, build_users, reduce_authenticator_accounter_from_groups}
use tacquito.Loader.Closed.{MadeAuthenticator, MadeAccounter, build_users-FailsClosed}

module _ {Addr H Provider Keys : Type 0} (f : Factories Addr H Provider Keys) (scope : Bytes)
    (us : List User) (print_id : ℕ → Bytes) where
  -- The users of the scope.
  abbrev pub users : Bytes → Option Aaa
  users = get_user (build_users f scope us no_users)

  -- An entry of the configuration, with the name and in the scope, and with what it gets from its
  -- groups.
  abbrev pub Entry : Bytes → User → Type 0
  Entry name v =
      (u : User) × Memᴰ u us
      × (has_scope u.scopes scope ≡ true)
      × (u.name ≡ name)
      × (v ≡ reduce_authenticator_accounter_from_groups (localize_to_scope scope u))

  -- A request is given to a handler that a factory has made for an entry with the name in the request.
  pub data Answered (req : Request) : Handler → Script Handler → Type 0 where
    password :
        {username : Bytes} {v : User} {handler : Request → Script Handler}
        → Entry username v
        → MadeAuthenticator f v handler
        → Answered req (get_password username) (handler req)
    pap :
        {body : AuthenStart.AuthenStart} {v : User} {handler : Request → Script Handler}
        → req.header.type ≡ authenticate
        → AuthenStart.unmarshal_binary req.body ≡ ok body
        → Entry body.user v
        → MadeAuthenticator f v handler
        → Answered req entry (handler req)
    authorization :
        {body : AuthorRequest.AuthorRequest} {v : User} {handler : Request → Script Handler}
        → req.header.type ≡ authorize
        → AuthorRequest.unmarshal_binary req.body ≡ ok body
        → Entry body.user v
        → f.authorizer_provider v ≡ some handler
        → Answered req entry (handler req)
    account :
        {body : AcctRequest.AcctRequest} {v : User} {handler : Request → Script Handler}
        → req.header.type ≡ accounting
        → AcctRequest.unmarshal_binary req.body ≡ ok body
        → Entry body.user v
        → MadeAccounter f v handler
        → Answered req entry (handler req)

  Reached-Answered :
      {h : Handler} (req : Request) (script : Script Handler)
      → Reached users print_id req script h
      → DenyOnly script ⊎ Answered req h script
  Reached-Answered req script
        (by_password {username = username} decoded on given (c, known, same)) =
      let (u, source) = build_users-FailsClosed f scope username us c known in
      let (m, scoped, named, closed) = source in
      elim closed.0 [
        | inl made ↦ inr (rw same (password (u, m, scoped, named, refl) made))
        | inr shut ↦ inl (rw same (shut req))
      ]
  Reached-Answered req script (by_pap {body = body} type decoded routed given (c, known, same)) =
      let (u, source) = build_users-FailsClosed f scope body.user us c known in
      let (m, scoped, named, closed) = source in
      elim closed.0 [
        | inl made ↦ inr (rw same (pap type decoded (u, m, scoped, named, refl) made))
        | inr shut ↦ inl (rw same (shut req))
      ]
  Reached-Answered req script (by_authorize {body = body} type decoded (c, known, same)) =
      let (u, source) = build_users-FailsClosed f scope body.user us c known in
      let (m, scoped, named, closed) = source in
      elim closed.1 [
        | inl made ↦ inr (rw same (authorization type decoded (u, m, scoped, named, refl) made))
        | inr shut ↦ inl (rw same (shut req))
      ]
  Reached-Answered req script (by_accounting {body = body} type decoded (c, known, same)) =
      let (u, source) = build_users-FailsClosed f scope body.user us c known in
      let (m, scoped, named, closed) = source in
      elim closed.2 [
        | inl made ↦ inr (rw same (account type decoded (u, m, scoped, named, refl) made))
        | inr shut ↦ inl (rw same (shut req))
      ]

  -- With the users that the loader builds for a scope, every handler on every request either only
  -- denies or, behind a registered writer, runs a handler that a registered factory made for an entry
  -- of the configuration, in the scope and with the name that the login or the request gives: an
  -- authenticator, an authorizer or an accounter, as the type of the packet says.
  pub handle-Answered :
      (h : Handler) (req : Request)
      → DenyOnly (handle users print_id h req)
        ⊎ ((script : Script Handler) × (handle users print_id h req ≡ call_register_writer script)
            × Answered req h script)
  handle-Answered h req = elim (handle-Reached users print_id h req) [
    | inl denied ↦ inl denied
    | inr (script, e, reached) ↦ elim (Reached-Answered req script reached) [
      | inl denied ↦ inl (rw e denied)
      | inr answered ↦ inr (script, e, answered)
    ]
  ]
