-- ===== src/Handlers/Router.antt =====
-- authen.go: the router of start packets.
use tacquito.Base.{ℕ, ◌==◌, Bool, ◌&&◌, if◌then◌else◌, List, [], ◌∷◌}
use tacquito.Base.{Option, none, some}
use tacquito.Fields.Header.{minor_version_default, minor_version_one}
use tacquito.Fields.Authen.{
  authen_action_login, authen_type_ascii, authen_type_pap, authen_type_chap,
}
use tacquito.Fields.Authen.{authen_type_mschap, authen_type_mschapv2, authen_service_enable}
use tacquito.Authen.Start as AuthenStart

-- `authenActionStart`, and the handlers of the router; a nil handler is none.
pub record RouteKey : Type 0 where
  pub action : ℕ
  pub atype : ℕ
  pub service : ℕ
  pub minor_version : ℕ

pub data Route : Type 0 where
  ascii pap : Route

abbrev same_key : RouteKey → RouteKey → Bool
same_key k l =
    k.action == l.action
    && k.atype == l.atype
    && k.service == l.service
    && k.minor_version == l.minor_version

abbrev key_of : ℕ → ℕ → ℕ → RouteKey
key_of atype service minor_version = record {
  action = authen_action_login;
  atype = atype;
  service = service;
  minor_version = minor_version;
}

abbrev authen_router : List (RouteKey × Option Route)
authen_router =
    (key_of 0 authen_service_enable minor_version_one, some ascii)
    ∷ (key_of authen_type_ascii 0 minor_version_default, some ascii)
    ∷ (key_of authen_type_pap 0 minor_version_one, some pap)
    ∷ (key_of authen_type_chap 0 minor_version_one, none)
    ∷ (key_of authen_type_mschap 0 minor_version_one, none)
    ∷ (key_of authen_type_mschapv2 0 minor_version_one, none)
    ∷ []

-- A key that the map does not have gives nil.
unfoldable pub lookup : List (RouteKey × Option Route) → RouteKey → Option Route
lookup [] k = none
lookup ((l, route) ∷ rest) k = if same_key k l then route else lookup rest k

-- `key` leaves the service at its zero value.
unfoldable pub route_of : AuthenStart.AuthenStart → ℕ → Option Route
unfolding lookup
route_of body minor_version =
    lookup authen_router (record {
      action = body.action;
      atype = body.type;
      service = 0;
      minor_version = minor_version;
    })
