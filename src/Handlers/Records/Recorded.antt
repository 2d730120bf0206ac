-- ===== src/Handlers/Records/Recorded.antt =====
-- What is recorded of the packets of an authentication.
use tacquito.Base.{◌<◌, ◌≡◌, refl, ◌∙◌, [], ◌∷◌, append-nil, length, Bytes, codes, Option, some, ok}
use tacquito.Fields.Header.{authenticate}
use tacquito.Header.{Header}
use tacquito.Authen.Start as AuthenStart
use tacquito.Authen.Continue as AuthenContinue
use tacquito.Authen.Start.Codec as StartCodec
use tacquito.Authen.Start.Codec.{unmarshal-marshal_authen_start}
use tacquito.Handlers.{entry, get_password}
use tacquito.Handlers.Router.{pap, route_of}
use tacquito.Handlers.Records.{start_records, authenticate_records, route_records, pap_records}
use tacquito.Base.{eq→==, List, ◌⊎◌}
use tacquito.Authen.Continue.Codec as ContinueCodec
use tacquito.Handlers.Records.{record_fields, record_request, records, obscure, put, obscured}
use tacquito.Report.Maps.{
  FieldMap, field, merge, header_fields, authen_start_fields, authen_continue_fields,
}
use tacquito.Report.Requests.{add_context}
use tacquito.Report.Shown.{request_fields-authen, authen_fields-start, authen_fields-continue}

module _ (context : Bytes → Option Bytes) where
  -- The header's part of a record.
  abbrev pub front : Header → FieldMap
  front h = add_context context (codes "conn-remote-addr" ∷ []) (header_fields h)

  pub password_records-continue :
      (h : Header) (username : Bytes) (a : AuthenContinue.AuthenContinue) (bytes : Bytes)
      → h.type ≡ authenticate
      → AuthenContinue.marshal_binary a ≡ ok bytes
      → (length a.user_message < 256) ⊎ (length a.content < 256)
      → ContinueCodec.Fits a
      → records context (get_password username) (record { header = h; body = bytes })
        ≡ merge (front h) (authen_continue_fields (record a { user_message = obscured })) ∷ []
  unfolding records record_request record_fields obscure put field merge authen_continue_fields
  password_records-continue h username a bytes ty m short fits =
      rw
        (
          request_fields-authen context (codes "conn-remote-addr" ∷ [])
              (record { header = h; body = bytes }) ty,
          authen_fields-continue (front h) a bytes m short fits,
        )
        refl

  -- The map of a start packet that reaches `Start.Handle`, with the keys that its route hides.
  pub start_records-route :
      (h : Header) (a : AuthenStart.AuthenStart) (bytes : Bytes)
      → h.type ≡ authenticate
      → AuthenStart.marshal_binary a ≡ ok bytes
      → StartCodec.Fits a
      → records context entry (record { header = h; body = bytes })
        ≡ route_records context (record { header = h; body = bytes }) a (route_of a h.version.minor)
  unfolding records start_records authenticate_records
  start_records-route h a bytes ty m f =
      rw
        (
          eq→== h.type authenticate ty,
          rw append-nil at (unmarshal-marshal_authen_start a bytes [] m f),
        )
        refl

  pub record_start :
      (keys : List Bytes) (h : Header) (a : AuthenStart.AuthenStart) (bytes : Bytes)
      → h.type ≡ authenticate
      → AuthenStart.marshal_binary a ≡ ok bytes
      → StartCodec.Fits a
      → record_request context keys (record { header = h; body = bytes })
        ≡ obscure (merge (front h) (authen_start_fields a)) keys ∷ []
  unfolding record_request record_fields
  record_start keys h a bytes ty m f =
      rw
        (
          request_fields-authen context (codes "conn-remote-addr" ∷ [])
              (record { header = h; body = bytes }) ty,
          authen_fields-start (front h) a bytes m f,
        )
        refl

  pub pap_records-start :
      (h : Header) (a : AuthenStart.AuthenStart) (bytes : Bytes)
      → h.type ≡ authenticate
      → AuthenStart.marshal_binary a ≡ ok bytes
      → StartCodec.Fits a
      → route_of a h.version.minor ≡ some pap
      → records context entry (record { header = h; body = bytes })
        ≡ merge (front h) (authen_start_fields (record a { content = obscured })) ∷ []
  unfolding route_records pap_records obscure put field merge authen_start_fields
  pap_records-start h a bytes ty m f routed =
      start_records-route h a bytes ty m f
      ∙ (rw routed refl ∙ record_start (codes "data" ∷ []) h a bytes ty m f)
