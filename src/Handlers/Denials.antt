-- ===== src/Handlers/Denials.antt =====
-- Which scripts only deny, and that the logins do so short of a user's authenticator.
use tacquito.Base.{ℕ, ◌≡◌, ◌≢◌, ◌⊎◌, inl, inr, refl, arith, true, false, Bool-cases, ◌==◌}
use tacquito.Base.{length, Bytes, Option, none, some, Result, ok, err, panic, ==-ne}
use tacquito.Fields.Authen.{authen_status_pass}
use tacquito.Fields.Author.{author_status_pass_add, author_status_pass_repl}
use tacquito.Fields.Acct.{acct_reply_status_success}
use tacquito.Authen.Start as AuthenStart
use tacquito.Authen.Continue as AuthenContinue
use tacquito.Server.Response.{Request, Body, authen_reply, author_reply, acct_reply}
use tacquito.Server.Serve.{Script, finish, call_reply, call_write, call_next, call_register_writer}
use tacquito.Handlers.{Handler, Aaa, continue_stop}
use tacquito.Handlers.Router.{Route, ascii, pap, route_of}
use tacquito.Handlers.{run_get_username, read_username, read_password}
use tacquito.Handlers.{authenticate_user, run_ascii, run_pap, run_route}
use tacquito.Handlers.{run_authenticate}

-- The reply does not say that the request passed.
abbrev Denies : Body → Type 0
Denies (authen_reply a) = a.status ≢ authen_status_pass
Denies (author_reply a) = (a.status ≢ author_status_pass_add) × (a.status ≢ author_status_pass_repl)
Denies (acct_reply a) = a.status ≢ acct_reply_status_success

-- No reply of the script says so, and no packet is written past `Reply`.
abbrev pub DenyOnly : Script Handler → Type 0
DenyOnly finish = Unit
DenyOnly (call_reply v k) = Denies v × ((r : Result Bytes) → DenyOnly (k r))
DenyOnly (call_write p k) = true ≡ false
DenyOnly (call_next n k) = DenyOnly k
DenyOnly (call_register_writer k) = DenyOnly k

module _ (get_user : Bytes → Option Aaa) (print_id : ℕ → Bytes) where
  -- The script is that of a handler of the user that the provider has under the name.
  abbrev pub Decides : (Aaa → Script Handler) → Bytes → Script Handler → Type 0
  Decides of username script = (c : Aaa) × (get_user username ≡ some c) × (script ≡ of c)

  authenticate_user-cases :
      (username : Bytes) (o : Option Aaa) (req : Request)
      → get_user username ≡ o
      → DenyOnly (authenticate_user get_user print_id username o req)
        ⊎ Decides
            (λ c. c.authenticator req)
            username
            (authenticate_user get_user print_id username o req)
  unfolding authenticate_user
  authenticate_user-cases username none req e = inl (omega arith, λ r. tt)
  authenticate_user-cases username (some c) req e = inr (c, e, refl)

  read_username-DenyOnly :
      (m : Result AuthenContinue.AuthenContinue) → DenyOnly (read_username get_user print_id m)
  unfolding read_username
  read_username-DenyOnly (err e) = (omega arith, λ r. tt)
  read_username-DenyOnly panic = tt
  read_username-DenyOnly (ok body) = elim (Bool-cases (length body.user_message == 0)) [
    | inl empty ↦ rw empty (omega arith, λ r. tt)
    | inr given ↦ rw given (omega arith, λ r. tt)
  ]

  pub run_get_username-DenyOnly :
      (username : Bytes) (req : Request)
      → DenyOnly (run_get_username get_user print_id username req)
  unfolding run_get_username
  run_get_username-DenyOnly username req = elim (Bool-cases (continue_stop req)) [
    | inl stop ↦ rw stop (omega arith, λ r. tt)
    | inr on ↦ elim (Bool-cases (length username == 0)) [
      | inl empty ↦
          rw (on, empty) (read_username-DenyOnly (AuthenContinue.unmarshal_binary req.body))
      | inr given ↦ rw (on, given) (omega arith, λ r. tt)
    ]
  ]

  run_ascii-DenyOnly :
      (username : Bytes) (req : Request) → DenyOnly (run_ascii get_user print_id username req)
  unfolding run_ascii
  run_ascii-DenyOnly username req = elim (Bool-cases (continue_stop req)) [
    | inl stop ↦ rw stop (omega arith, λ r. tt)
    | inr on ↦ elim (Bool-cases (length username == 0)) [
      | inl empty ↦ rw (on, empty) (omega arith, λ r. tt)
      | inr given ↦ rw (on, given) (omega arith, λ r. tt)
    ]
  ]

  pub read_password-cases :
      (username : Bytes) (req : Request) (m : Result AuthenContinue.AuthenContinue)
      → DenyOnly (read_password get_user print_id username req m)
        ⊎ ((body : AuthenContinue.AuthenContinue) × (m ≡ ok body)
            × (length body.user_message ≢ 0)
            × Decides
                (λ c. c.authenticator req)
                username
                (read_password get_user print_id username req m))
  unfolding read_password
  read_password-cases username req (err e) = inl ((omega arith, λ r. tt))
  read_password-cases username req panic = inl tt
  read_password-cases username req (ok body) = elim (Bool-cases (length body.user_message == 0)) [
    | inl none_given ↦ inl (rw none_given (omega arith, λ r. tt))
    | inr given ↦ elim (authenticate_user-cases username (get_user username) req refl) [
      | inl denied ↦ inl (rw given denied)
      | inr decided ↦ inr (body, refl, ==-ne _ _ given, rw given decided)
    ]
  ]

  run_pap-cases :
      (req : Request) (body : AuthenStart.AuthenStart)
      → DenyOnly (run_pap get_user print_id req body)
        ⊎ (((length body.user ≢ 0) × (length body.content ≢ 0))
            × Decides (λ c. c.authenticator req) body.user (run_pap get_user print_id req body))
  unfolding run_pap
  run_pap-cases req body = elim (Bool-cases (length body.user == 0)) [
    | inl nobody ↦ inl (rw nobody (omega arith, λ r. tt))
    | inr somebody ↦ elim (Bool-cases (length body.content == 0)) [
      | inl nothing ↦ inl (rw (somebody, nothing) (omega arith, λ r. tt))
      | inr given ↦ elim (authenticate_user-cases body.user (get_user body.user) req refl) [
        | inl denied ↦ inl (rw (somebody, given) denied)
        | inr decided ↦ inr ((==-ne _ _ somebody, ==-ne _ _ given), rw (somebody, given) decided)
      ]
    ]
  ]

  run_route-cases :
      (req : Request) (body : AuthenStart.AuthenStart) (route : Option Route)
      → DenyOnly (run_route get_user print_id req body route)
        ⊎ ((route ≡ some pap)
            × ((length body.user ≢ 0) × (length body.content ≢ 0))
            × Decides
                (λ c. c.authenticator req)
                body.user
                (run_route get_user print_id req body route))
  unfolding run_route
  run_route-cases req body (some ascii) = inl (run_ascii-DenyOnly body.user req)
  run_route-cases req body (some pap) = elim (run_pap-cases req body) [
    | inl denied ↦ inl denied
    | inr (given, decided) ↦ inr (refl, given, decided)
  ]
  run_route-cases req body none = inl (omega arith, λ r. tt)

  pub run_authenticate-cases :
      (req : Request) (m : Result AuthenStart.AuthenStart)
      → DenyOnly (run_authenticate get_user print_id req m)
        ⊎ ((body : AuthenStart.AuthenStart) × (m ≡ ok body)
            × (route_of body req.header.version.minor ≡ some pap)
            × ((length body.user ≢ 0) × (length body.content ≢ 0))
            × Decides
                (λ c. c.authenticator req)
                body.user
                (run_authenticate get_user print_id req m))
  unfolding run_authenticate
  run_authenticate-cases req (err e) = inl (omega arith, λ r. tt)
  run_authenticate-cases req panic = inl tt
  run_authenticate-cases req (ok body) =
      elim (run_route-cases req body (route_of body req.header.version.minor)) [
        | inl denied ↦ inl denied
        | inr (routed, given, decided) ↦ inr (body, refl, routed, given, decided)
      ]
