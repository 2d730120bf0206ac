-- ===== src/Tests/Logins.antt =====
-- The handlers on concrete requests.
use tacquito.Base.{ℕ, zero, ◌≡◌, ◌↔◌, ◌⊎◌, [], ◌∷◌, Bytes, Option, some}
use tacquito.Server.Response.{Request}
use tacquito.Server.Serve.{Script, finish, call_register_writer}
use tacquito.Handlers.{Handler, get_password, Aaa, handle}
use tacquito.Handlers.Router.{route_of, ascii, pap}
use tacquito.Handlers.Denials.{DenyOnly}
use tacquito.Handlers.Grants.{Reached, handle-Reached}
use tacquito.Handlers.Routing.{route_of_lem}
use tacquito.Tests.Toy.{login, opening}

-- Everybody is known, and the user's handlers say nothing.
abbrev users : Bytes → Option Aaa
users name =
    some (record { authenticator = λ r. finish; authorizer = λ r. finish; accounter = λ r. finish })

abbrev print_nothing : ℕ → Bytes
print_nothing n = []

-- The password "pw" in a continue packet.
abbrev password_request : Request
password_request = record {
  header = record opening { seq_no = 3; len = 7 };
  body = 0 ∷ 2 ∷ 0 ∷ 0 ∷ 0 ∷ 112 ∷ 119 ∷ [];
}

handle-Reached_example :
    DenyOnly (handle users print_nothing (get_password (98 ∷ [])) password_request)
    ⊎ ((script : Script Handler) × (handle users print_nothing
            (get_password (98 ∷ []))
            password_request
          ≡ call_register_writer script)
        × Reached users print_nothing password_request script (get_password (98 ∷ [])))
handle-Reached_example =
    handle-Reached users print_nothing (get_password (98 ∷ [])) password_request

route_of_lem_example :
    ((route_of login 0 ≡ some ascii) ↔ ((login.action ≡ 1) × (login.type ≡ 1) × (zero ≡ 0)))
    × ((route_of login 0 ≡ some pap) ↔ ((login.action ≡ 1) × (login.type ≡ 2) × (zero ≡ 1)))
route_of_lem_example = route_of_lem login 0
