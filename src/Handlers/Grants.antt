-- ===== src/Handlers/Grants.antt =====
-- Which packets a user's own handlers decide on; the others are denied.
use tacquito.Base.{ℕ, ◌≡◌, ◌≢◌, ◌⊎◌, inl, inr, refl, arith, false, Bool-cases, ◌==◌}
use tacquito.Base.{length, Bytes, Option, Option-cases, some, Result, ok, err, panic, ==→eq}
use tacquito.Fields.Header.{authenticate, authorize, accounting}
use tacquito.Authen.Start as AuthenStart
use tacquito.Authen.Continue as AuthenContinue
use tacquito.Author.Request as AuthorRequest
use tacquito.Acct.Request as AcctRequest
use tacquito.Server.Response.{Request}
use tacquito.Server.Serve.{Script, call_register_writer}
use tacquito.Handlers.{Handler, entry, get_username, get_password, Aaa, continue_stop}
use tacquito.Handlers.Router.{pap, route_of}
use tacquito.Handlers.{handle, run_start, run_get_password}
use tacquito.Handlers.{authorize_user, account_user}
use tacquito.Handlers.{run_authorize, run_accounting}
use tacquito.Handlers.Denials.{
  DenyOnly, Decides, run_get_username-DenyOnly, read_password-cases, run_authenticate-cases,
}

module _ (get_user : Bytes → Option Aaa) (print_id : ℕ → Bytes) where
  -- The packets that reach a user's handler.
  pub data Reached (req : Request) (script : Script Handler) : Handler → Type 0 where
    by_password :
        {username : Bytes} {body : AuthenContinue.AuthenContinue}
        → AuthenContinue.unmarshal_binary req.body ≡ ok body
        → continue_stop req ≡ false
        → length body.user_message ≢ 0
        → Decides get_user print_id (λ c. c.authenticator req) username script
        → Reached req script (get_password username)
    by_pap :
        {body : AuthenStart.AuthenStart}
        → req.header.type ≡ authenticate
        → AuthenStart.unmarshal_binary req.body ≡ ok body
        → route_of body req.header.version.minor ≡ some pap
        → (length body.user ≢ 0) × (length body.content ≢ 0)
        → Decides get_user print_id (λ c. c.authenticator req) body.user script
        → Reached req script entry
    by_authorize :
        {body : AuthorRequest.AuthorRequest}
        → req.header.type ≡ authorize
        → AuthorRequest.unmarshal_binary req.body ≡ ok body
        → Decides get_user print_id (λ c. c.authorizer req) body.user script
        → Reached req script entry
    by_accounting :
        {body : AcctRequest.AcctRequest}
        → req.header.type ≡ accounting
        → AcctRequest.unmarshal_binary req.body ≡ ok body
        → Decides get_user print_id (λ c. c.accounter req) body.user script
        → Reached req script entry

  run_get_password-cases :
      (username : Bytes) (req : Request)
      → DenyOnly (run_get_password get_user print_id username req)
        ⊎ Reached req (run_get_password get_user print_id username req) (get_password username)
  unfolding run_get_password
  run_get_password-cases username req = elim (Bool-cases (continue_stop req)) [
    | inl stop ↦ inl (rw stop (omega arith, λ r. tt))
    | inr on ↦
        elim (read_password-cases get_user print_id username req
          (AuthenContinue.unmarshal_binary req.body)) [
            | inl denied ↦ inl (rw on denied)
            | inr (body, decoded, given, decided) ↦
                inr (by_password decoded on given (rw on decided))
          ]
  ]

  run_authorize-cases :
      (req : Request) (m : Result AuthorRequest.AuthorRequest)
      → DenyOnly (run_authorize get_user print_id req m)
        ⊎ ((body : AuthorRequest.AuthorRequest) × (m ≡ ok body)
            × Decides get_user print_id
                (λ c. c.authorizer req)
                body.user
                (run_authorize get_user print_id req m))
  unfolding run_authorize authorize_user
  run_authorize-cases req (err e) = inl (omega arith, λ r. tt)
  run_authorize-cases req panic = inl tt
  run_authorize-cases req (ok body) = elim (Option-cases (get_user body.user)) [
    | inl nobody ↦ inl (rw nobody (omega arith, λ r. tt))
    | inr (c, found) ↦ inr (body, refl, (c, found, rw found refl))
  ]

  run_accounting-cases :
      (req : Request) (m : Result AcctRequest.AcctRequest)
      → DenyOnly (run_accounting get_user print_id req m)
        ⊎ ((body : AcctRequest.AcctRequest) × (m ≡ ok body)
            × Decides get_user print_id
                (λ c. c.accounter req)
                body.user
                (run_accounting get_user print_id req m))
  unfolding run_accounting account_user
  run_accounting-cases req (err e) = inl (omega arith, λ r. tt)
  run_accounting-cases req panic = inl tt
  run_accounting-cases req (ok body) = elim (Option-cases (get_user body.user)) [
    | inl nobody ↦ inl (rw nobody (omega arith, λ r. tt))
    | inr (c, found) ↦ inr (body, refl, (c, found, rw found refl))
  ]

  -- After the writer is registered, the script is that of `Start`.
  run_start-cases :
      (req : Request)
      → DenyOnly (run_start get_user print_id req)
        ⊎ Reached req (run_start get_user print_id req) entry
  unfolding run_start
  run_start-cases req = elim (Bool-cases (req.header.type == authenticate)) [
    | inl one ↦
        elim (run_authenticate-cases get_user print_id req
          (AuthenStart.unmarshal_binary req.body)) [
            | inl denied ↦ inl (rw one denied)
            | inr (body, decoded, routed, given, decided) ↦
                inr (by_pap (==→eq _ _ one) decoded routed given (rw one decided))
          ]
    | inr not_one ↦ elim (Bool-cases (req.header.type == authorize)) [
      | inl two ↦ elim (run_authorize-cases req (AuthorRequest.unmarshal_binary req.body)) [
        | inl denied ↦ inl (rw (not_one, two) denied)
        | inr (body, decoded, decided) ↦
            inr (by_authorize (==→eq _ _ two) decoded (rw (not_one, two) decided))
      ]
      | inr not_two ↦ elim (Bool-cases (req.header.type == accounting)) [
        | inl three ↦ elim (run_accounting-cases req (AcctRequest.unmarshal_binary req.body)) [
          | inl denied ↦ inl (rw (not_one, not_two, three) denied)
          | inr (body, decoded, decided) ↦
              inr (by_accounting (==→eq _ _ three) decoded (rw (not_one, not_two, three) decided))
        ]
        | inr not_three ↦ inl (rw (not_one, not_two, not_three) tt)
      ]
    ]
  ]

  -- Every handler, on every request, either only denies, where no reply has a passing status and
  -- none is written past `Reply`, or, behind a registered writer, runs a handler of a user that the
  -- provider has: the authenticator of the name that was asked for, on a continue packet with a
  -- password and without the abort flag; the authenticator, on a start packet that is routed to PAP
  -- with a name and a password; or the authorizer or the accounter, on a request of their type.
  pub handle-Reached :
      (h : Handler) (req : Request)
      → DenyOnly (handle get_user print_id h req)
        ⊎ ((script : Script Handler) × (handle get_user print_id h req
              ≡ call_register_writer script)
            × Reached req script h)
  unfolding handle
  handle-Reached entry req = elim (run_start-cases req) [
    | inl denied ↦ inl denied
    | inr reached ↦ inr (run_start get_user print_id req, refl, reached)
  ]
  handle-Reached (get_username username) req =
      inl (run_get_username-DenyOnly get_user print_id username req)
  handle-Reached (get_password username) req = elim (run_get_password-cases username req) [
    | inl denied ↦ inl denied
    | inr reached ↦ inr (run_get_password get_user print_id username req, refl, reached)
  ]
