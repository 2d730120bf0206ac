-- ===== src/Report/Requests.antt =====
-- handlers.go: `Request.Fields`; and response_logger.go: the writer
-- that logs the fields of each reply that is mirrored to it.
use tacquito.Base.{
  ◌==◌, if◌then◌else◌, List, [], ◌∷◌, Bytes, Option, none, some, Result, ok, err, panic,
}
use tacquito.Fields.Header.{authenticate, authorize, accounting}
use tacquito.Packet.{Packet}
use tacquito.Packet
use tacquito.Authen.Start as AuthenStart
use tacquito.Authen.Continue as AuthenContinue
use tacquito.Authen.Reply as AuthenReply
use tacquito.Author.Request as AuthorRequest
use tacquito.Author.Reply as AuthorReply
use tacquito.Acct.Request as AcctRequest
use tacquito.Acct.Reply as AcctReply
use tacquito.Base.{◌>>=◌}
use tacquito.Server.Response.{Request}
use tacquito.Server.Serve.{Script, call_register_writer}
use tacquito.Report.Maps.{FieldMap, merge, header_fields, authen_start_fields}
use tacquito.Report.Maps.{authen_continue_fields, authen_reply_fields, author_request_fields}
use tacquito.Report.Maps.{author_reply_fields, acct_request_fields, acct_reply_fields}

-- `if err := Unmarshal(r.Body, &a); err == nil { merge(allFields, a.Fields()); return allFields }`,
-- and what is tried after it. A nil map is `none`.
unfoldable pub try_fields {ℓ} :
    {A : Type ℓ}
    → FieldMap
    → (A → FieldMap)
    → Result A
    → Result (Option FieldMap)
    → Result (Option FieldMap)
try_fields all fields (ok a) later = ok (some (merge all (fields a)))
try_fields all fields (err e) later = later
try_fields all fields panic later = panic

-- The packet types that an authentication is tried as, in turn.
unfoldable pub authen_fields : FieldMap → Bytes → Result (Option FieldMap)
unfolding try_fields
authen_fields all body = try_fields all authen_start_fields (AuthenStart.unmarshal_binary body) (
    try_fields all authen_continue_fields (AuthenContinue.unmarshal_binary body)
      (try_fields all authen_reply_fields (AuthenReply.unmarshal_binary body) (ok none)))

unfoldable pub author_fields : FieldMap → Bytes → Result (Option FieldMap)
unfolding try_fields
author_fields all body =
    try_fields all author_request_fields (AuthorRequest.unmarshal_binary body)
      (try_fields all author_reply_fields (AuthorReply.unmarshal_binary body) (ok none))

unfoldable pub acct_fields : FieldMap → Bytes → Result (Option FieldMap)
unfolding try_fields
acct_fields all body =
    try_fields all acct_request_fields (AcctRequest.unmarshal_binary body)
      (try_fields all acct_reply_fields (AcctReply.unmarshal_binary body) (ok none))

-- `for _, key := range keys { if v, ok := r.Context.Value(key).(string); ok { allFields[key] = v } }`.
-- A context is what it has under a key, if that is a string.
unfoldable pub add_context : (Bytes → Option Bytes) → List Bytes → FieldMap → FieldMap
add_context context [] all = all
add_context context (key ∷ keys) all =
    add_context context keys (elim (context key) [ none ↦ all | some v ↦ (key, v) ∷ all ])

-- `Request.Fields`. A nil context has nothing.
unfoldable pub request_fields :
    (Bytes → Option Bytes) → List Bytes → Request → Result (Option FieldMap)
unfolding authen_fields author_fields acct_fields add_context
request_fields context keys r =
    let all = add_context context keys (header_fields r.header) in
    if r.header.type == authenticate
    then authen_fields all r.body
    else if r.header.type == authorize
    then author_fields all r.body
    else if r.header.type == accounting
    then acct_fields all r.body
    else ok none

-- `tq.Request{Header: *packet.Header, Body: packet.Body[:]}`: a nil header is a panic.
unfoldable pub request_of : Packet → Result Request
request_of p = elim p.header [
  | none ↦ panic
  | some h ↦ ok (record { header = h; body = elim p.body [ none ↦ [] | some b ↦ b ] })
]

-- `ResponseLogger.Write`: the map that is recorded.
unfoldable pub log_write : Bytes → Result (Option FieldMap)
unfolding request_of
log_write p = do
  packet ← Packet.unmarshal_binary (some p) []
  request ← request_of packet
  request_fields (λ key. none) [] request

-- `ResponseLogger.Handle`: the writer is registered in front of the next handler.
unfoldable pub log_handle : {H : Type 0} → (Request → Script H) → Request → Script H
log_handle next request = call_register_writer (next request)
