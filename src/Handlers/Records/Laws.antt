-- ===== src/Handlers/Records/Laws.antt =====
-- Which passwords the log hides, and which it shows.
use tacquito.Base.{◌<◌, ◌≡◌, refl, ◌∙◌, [], ◌∷◌, length, Bytes, codes, Option, none, some, ok}
use tacquito.Fields.Header.{authenticate}
use tacquito.Header.{Header}
use tacquito.Authen.Start as AuthenStart
use tacquito.Authen.Continue as AuthenContinue
use tacquito.Authen.Start.Codec as StartCodec
use tacquito.Authen.Start.Codec.{unmarshal-marshal_authen_start}
use tacquito.Handlers.{entry, get_password}
use tacquito.Handlers.Router.{pap, route_of}
use tacquito.Handlers.Records.{route_records}
use tacquito.Base.{ap, ℕ, ◌⊎◌}
use tacquito.Authen.Continue.Codec as ContinueCodec
use tacquito.Report.Decimal.{decimal}
use tacquito.Handlers.Records.{records, obscure, put, obscured}
use tacquito.Report.Maps.{
  FieldMap, field, merge, header_fields, authen_start_fields, authen_continue_fields,
}
use tacquito.Report.Requests.{add_context}
use tacquito.Handlers.Records.Recorded.{
  front, password_records-continue, start_records-route, record_start, pap_records-start,
}

-- A key that a map does not have hides nothing.
obscure_missing : (r : FieldMap) (key : Bytes) → field r key ≡ none → obscure r (key ∷ []) ≡ r
unfolding obscure
obscure_missing r key h = rw (obscure, h) refl

remote_user_msg :
    (h : Header) (remote : Option Bytes)
    → field
        (elim remote [
          | none ↦ header_fields h
          | some v ↦ (codes "conn-remote-addr", v) ∷ header_fields h
        ])
        (codes "user-msg")
      ≡ none
unfolding header_fields field
remote_user_msg h none = refl
remote_user_msg h (some v) = refl

header_fields-put_length :
    (h : Header) (n : ℕ) (remote : Option Bytes)
    → put
        (elim remote [
          | none ↦ header_fields h
          | some v ↦ (codes "conn-remote-addr", v) ∷ header_fields h
        ])
        (codes "header-length")
        (decimal n)
      ≡ elim remote [
        | none ↦ header_fields (record h { len = n })
        | some v ↦ (codes "conn-remote-addr", v) ∷ header_fields (record h { len = n })
      ]
unfolding header_fields put
header_fields-put_length h n none = refl
header_fields-put_length h n (some v) = refl

module _ (context : Bytes → Option Bytes) where
  front-put_length :
      (h : Header) (n : ℕ)
      → put (front context h) (codes "header-length") (decimal n)
        ≡ front context (record h { len = n })
  unfolding add_context
  front-put_length h n = header_fields-put_length h n (context (codes "conn-remote-addr"))

  continue-put_length :
      (h : Header) (n : ℕ) (a : AuthenContinue.AuthenContinue)
      → merge (front context (record h { len = n })) (authen_continue_fields a)
        ≡ put
            (merge (front context h) (authen_continue_fields a))
            (codes "header-length")
            (decimal n)
  unfolding put merge authen_continue_fields
  continue-put_length h n a = rw (front-put_length h n) refl

  start-put_length :
      (h : Header) (n : ℕ) (a : AuthenStart.AuthenStart)
      → merge (front context (record h { len = n })) (authen_start_fields a)
        ≡ put (merge (front context h) (authen_start_fields a)) (codes "header-length") (decimal n)
  unfolding put merge authen_start_fields
  start-put_length h n a = rw (front-put_length h n) refl

  -- Two continue packets for the password prompt that differ in nothing but the password and the
  -- length that the header gives are recorded as one map, in which each sets `header-length` to its
  -- own: of the password, the log depends on no more than that length. The passwords are shorter than
  -- 256 bytes, or the packets' data are, and both are shorter than 65536.
  pub password_records-blind :
      (h : Header) (n n' : ℕ) (username password other : Bytes) (a : AuthenContinue.AuthenContinue)
      (bytes bytes' : Bytes)
      → h.type ≡ authenticate
      → AuthenContinue.marshal_binary (record a { user_message = password }) ≡ ok bytes
      → AuthenContinue.marshal_binary (record a { user_message = other }) ≡ ok bytes'
      → (length password < 256) ⊎ (length a.content < 256)
      → (length other < 256) ⊎ (length a.content < 256)
      → ContinueCodec.Fits (record a { user_message = password })
      → ContinueCodec.Fits (record a { user_message = other })
      → (r : FieldMap) × (records context
            (get_password username)
            (record { header = record h { len = n }; body = bytes })
          ≡ put r (codes "header-length") (decimal n) ∷ [])
        × (records context
              (get_password username)
              (record { header = record h { len = n' }; body = bytes' })
            ≡ put r (codes "header-length") (decimal n') ∷ [])
  password_records-blind h n n' username password other a bytes bytes' ty m m' short short' f f' =
      let hidden : AuthenContinue.AuthenContinue = record a { user_message = obscured } in
      (
        merge (front context h) (authen_continue_fields hidden),
        password_records-continue context (record h { len = n }) username
              (record a { user_message = password }) bytes ty m short f
            ∙ ap (λ (s : FieldMap). s ∷ []) (continue-put_length h n hidden),
        password_records-continue context (record h { len = n' }) username
              (record a { user_message = other }) bytes' ty m' short' f'
            ∙ ap (λ (s : FieldMap). s ∷ []) (continue-put_length h n' hidden),
      )

  -- Two start packets that are routed to PAP and differ in nothing but their data, where the password
  -- is, and the length that the header gives are recorded as one map, in which each sets
  -- `header-length` to its own: of the password, the log depends on no more than that length. The
  -- texts of both packets are shorter than 256 bytes.
  pub start_records-blind :
      (h : Header) (n n' : ℕ) (password other : Bytes) (a : AuthenStart.AuthenStart)
      (bytes bytes' : Bytes)
      → h.type ≡ authenticate
      → AuthenStart.marshal_binary (record a { content = password }) ≡ ok bytes
      → AuthenStart.marshal_binary (record a { content = other }) ≡ ok bytes'
      → StartCodec.Fits (record a { content = password })
      → StartCodec.Fits (record a { content = other })
      → route_of a h.version.minor ≡ some pap
      → (r : FieldMap) × (records context entry
            (record { header = record h { len = n }; body = bytes })
          ≡ put r (codes "header-length") (decimal n) ∷ [])
        × (records context entry (record { header = record h { len = n' }; body = bytes' })
            ≡ put r (codes "header-length") (decimal n') ∷ [])
  unfolding route_of
  start_records-blind h n n' password other a bytes bytes' ty m m' f f' routed =
      let hidden : AuthenStart.AuthenStart = record a { content = obscured } in
      (
        merge (front context h) (authen_start_fields hidden),
        pap_records-start context (record h { len = n }) (record a { content = password }) bytes ty
              m f routed
            ∙ ap (λ (s : FieldMap). s ∷ []) (start-put_length h n hidden),
        pap_records-start context (record h { len = n' }) (record a { content = other }) bytes' ty
              m' f' routed
            ∙ ap (λ (s : FieldMap). s ∷ []) (start-put_length h n' hidden),
      )

  front_user_msg : (h : Header) → field (front context h) (codes "user-msg") ≡ none
  unfolding add_context
  front_user_msg h = remote_user_msg h (context (codes "conn-remote-addr"))

  start_user_msg :
      (h : Header) (a : AuthenStart.AuthenStart)
      → field (merge (front context h) (authen_start_fields a)) (codes "user-msg") ≡ none
  unfolding field merge authen_start_fields
  start_user_msg h a = front_user_msg h

  -- A start packet that is routed nowhere is recorded with its data, which may be a password, in
  -- clear: the key that is hidden, `user-msg`, is none that a start packet has.
  pub start_records-clear :
      (h : Header) (a : AuthenStart.AuthenStart) (bytes : Bytes)
      → h.type ≡ authenticate
      → AuthenStart.marshal_binary a ≡ ok bytes
      → StartCodec.Fits a
      → route_of a h.version.minor ≡ none
      → (r : FieldMap) × (records context entry (record { header = h; body = bytes }) ≡ r ∷ [])
        × (field r (codes "data") ≡ some a.content)
  unfolding route_records field merge authen_start_fields
  start_records-clear h a bytes ty m f routed = (
    merge (front context h) (authen_start_fields a),
    start_records-route context h a bytes ty m f
        ∙ (rw routed refl
            ∙ (record_start context (codes "user-msg" ∷ []) h a bytes ty m f
                ∙ ap (λ (s : FieldMap). s ∷ []) (obscure_missing _ _ (start_user_msg h a)))),
    refl,
  )
