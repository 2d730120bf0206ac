-- ===== src/Handlers/Records.antt =====
-- What the handlers write to the log: their calls of `Record`, and `Record` of log.go, which hides
-- the fields that it is told to.
pub mod Recorded
pub mod Laws
use tacquito.Base.{
  ℕ, ◌==◌, if◌then◌else◌, length, List, [], ◌∷◌, Bytes, codes, Option, none, some, Result, ok, err,
  panic,
}
use tacquito.Text.{equals}
use tacquito.Fields.Header.{authenticate, authorize, accounting}
use tacquito.Authen.Start as AuthenStart
use tacquito.Server.Response.{Request}
use tacquito.Handlers.{Handler, entry, get_username, get_password, continue_stop}
use tacquito.Handlers.Router.{Route, ascii, pap, route_of}
use tacquito.Report.Maps.{FieldMap, field}
use tacquito.Report.Requests.{request_fields}

-- `r[key] = v`.
unfoldable pub put : FieldMap → Bytes → Bytes → FieldMap
put [] key v = (key, v) ∷ []
put (first ∷ fields) key v =
    let later = put fields key v in if equals first.0 key then (key, v) ∷ fields else first ∷ later

abbrev pub obscured : Bytes
obscured = codes "<obscured>"

-- The loop of `defaultLogger.Record`.
unfoldable pub obscure : FieldMap → List Bytes → FieldMap
unfolding put
obscure r [] = r
obscure r (key ∷ keys) =
    obscure (elim (field r key) [ none ↦ r | some v ↦ put r key obscured ]) keys

-- `a.Record(request.Context, request.Fields(tq.ContextConnRemoteAddr), obscure...)`: the map that is
-- logged. No decoder of a body panics.
record_fields : List Bytes → Result (Option FieldMap) → List FieldMap
unfolding obscure
record_fields keys (ok (some r)) = obscure r keys ∷ []
record_fields keys (ok none) = [] ∷ []
record_fields keys (err e) = []
record_fields keys panic = []

module _ (context : Bytes → Option Bytes) where
  unfoldable pub record_request : List Bytes → Request → List FieldMap
  unfolding record_fields
  record_request keys req =
      record_fields keys (request_fields context (codes "conn-remote-addr" ∷ []) req)

  -- `getUsername`, whose record is deferred and so made on every path.
  username_records : Request → List FieldMap
  username_records req = record_request [] req

  password_records : Request → List FieldMap
  password_records req = record_request (codes "user-msg" ∷ []) req

  ascii_records : Bytes → Request → List FieldMap
  unfolding username_records
  ascii_records username req =
      if continue_stop req
      then record_request [] req
      else if length username == 0
      then record_request [] req
      else username_records req

  pap_records : Request → List FieldMap
  pap_records req = record_request (codes "data" ∷ []) req

  pub route_records : Request → AuthenStart.AuthenStart → Option Route → List FieldMap
  unfolding ascii_records pap_records
  route_records req body (some ascii) = ascii_records body.user req
  route_records req body (some pap) = pap_records req
  route_records req body none = record_request (codes "user-msg" ∷ []) req

  authenticate_records : Request → Result AuthenStart.AuthenStart → List FieldMap
  unfolding route_records
  authenticate_records req (ok body) =
      route_records req body (route_of body req.header.version.minor)
  authenticate_records req (err e) = []
  authenticate_records req panic = []

  start_records : Request → List FieldMap
  unfolding authenticate_records
  start_records req =
      if req.header.type == authenticate
      then authenticate_records req (AuthenStart.unmarshal_binary req.body)
      else if req.header.type == authorize
      then record_request [] req
      else if req.header.type == accounting
      then record_request [] req
      else []

  unfoldable pub records : Handler → Request → List FieldMap
  unfolding start_records username_records password_records
  records entry req = start_records req
  records (get_username username) req = username_records req
  records (get_password username) req = password_records req
