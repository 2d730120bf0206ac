-- ===== src/Handlers/Routing.antt =====
-- Which start packets the router sends where.
use tacquito.Base.{ℕ, ◌≡◌, ◌↔◌, arith, some}
use tacquito.Fields.Header.{minor_version_default, minor_version_one}
use tacquito.Fields.Authen.{authen_action_login, authen_type_ascii, authen_type_pap}
use tacquito.Authen.Start as AuthenStart
use tacquito.Handlers.Router.{ascii, pap, route_of, lookup}

-- A start packet goes to the ASCII login exactly if it is a login of type ASCII at the default minor
-- version, and to the PAP login exactly if it is one of type PAP at minor version one, whatever its
-- service: the router's entry for enable requests is never chosen.
pub route_of_lem :
    (body : AuthenStart.AuthenStart) (minor : ℕ)
    → ((route_of body minor ≡ some ascii) ↔ (
        (body.action ≡ authen_action_login)
        × (body.type ≡ authen_type_ascii)
        × (minor ≡ minor_version_default)))
      × ((route_of body minor ≡ some pap) ↔ (
          (body.action ≡ authen_action_login)
          × (body.type ≡ authen_type_pap)
          × (minor ≡ minor_version_one)))
unfolding route_of lookup
route_of_lem body minor =
    (((λ h. ground arith), (λ h. ground arith)), ((λ h. ground arith), (λ h. ground arith)))
