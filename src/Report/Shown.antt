-- ===== src/Report/Shown.antt =====
-- That the packets of an authentication are reported as what they are.
use tacquito.Base.{◌+◌, ◌*◌, ◌/◌, ◌%◌, ◌<◌, ◌≡◌, refl, arith, Bool, true, false, not, ◌||◌, ◌==◌}
use tacquito.Base.{List, [], ◌∷◌, append-nil, length, get_or, Bytes, IsBytes, Option, some}
use tacquito.Base.{Error, Result, ok, err}
use tacquito.Authen.Start as AuthenStart
use tacquito.Authen.Continue as AuthenContinue
use tacquito.Authen.Reply as AuthenReply
use tacquito.Fields.{among, validate_all}
use tacquito.Fields.Authen.{validate_authen_action}
use tacquito.Base.{◌⊎◌, inl, inr}
use tacquito.Base.{◌∙◌, bad_secret, length-append}
use tacquito.Authen.Start.Codec as StartCodec
use tacquito.Authen.Continue.Codec as ContinueCodec
use tacquito.Authen.Reply.Codec as ReplyCodec
use tacquito.Authen.Start.Codec.{unmarshal-marshal_authen_start}
use tacquito.Authen.Continue.Codec.{
  unmarshal-marshal_authen_continue, unmarshal-bad_secret_authen_continue,
}
use tacquito.Authen.Reply.Codec.{unmarshal-marshal_authen_reply}
use tacquito.Report.Maps.{
  FieldMap, merge, authen_start_fields, authen_continue_fields, authen_reply_fields,
}
use tacquito.Base.{eq→==}
use tacquito.Fields.Header.{authenticate}
use tacquito.Server.Response.{Request}
use tacquito.Report.Maps.{header_fields}
use tacquito.Report.Requests.{try_fields, authen_fields, request_fields, add_context}

-- Bytes that do not begin as a start packet are not read as one.
pub start_refuses :
    (all : FieldMap) (fields : AuthenStart.AuthenStart → FieldMap) (s : Bytes)
    (later : Result (Option FieldMap))
    → (not (among (get_or s 0 0) (1 ∷ 2 ∷ 4 ∷ [])) || get_or s 2 0 == 0) ≡ true
    → try_fields all fields (AuthenStart.unmarshal_binary s) later ≡ later
unfolding try_fields AuthenStart.unmarshal_binary AuthenStart.validate validate_authen_action
    validate_all
start_refuses all fields s later h = ground arith

or_true : (b : Bool) → (b || true) ≡ true
or_true true = refl
or_true false = refl

-- What is not read falls to what is tried next.
try_fields-err {ℓ} :
    {A : Type ℓ} (all : FieldMap) (fields : A → FieldMap) (r : Result A) (e : Error)
    (later : Result (Option FieldMap))
    → r ≡ err e
    → try_fields all fields r later ≡ later
unfolding try_fields
try_fields-err all fields r e later h = rw h refl

pub try_fields-ok {ℓ} :
    {A : Type ℓ} (all : FieldMap) (fields : A → FieldMap) (r : Result A) (a : A)
    (later : Result (Option FieldMap))
    → r ≡ ok a
    → try_fields all fields r later ≡ ok (some (merge all (fields a)))
unfolding try_fields
try_fields-ok all fields r a later h = rw h refl

pub authen_fields-start :
    (all : FieldMap) (a : AuthenStart.AuthenStart) (bytes : Bytes)
    → AuthenStart.marshal_binary a ≡ ok bytes
    → StartCodec.Fits a
    → authen_fields all bytes ≡ ok (some (merge all (authen_start_fields a)))
unfolding authen_fields
authen_fields-start all a bytes m f =
    try_fields-ok all authen_start_fields _ a _
      (rw append-nil at (unmarshal-marshal_authen_start a bytes [] m f))

-- A continue packet whose message or whose data is shorter than 256 bytes.
pub authen_fields-continue :
    (all : FieldMap) (a : AuthenContinue.AuthenContinue) (bytes : Bytes)
    → AuthenContinue.marshal_binary a ≡ ok bytes
    → (length a.user_message < 256) ⊎ (length a.content < 256)
    → ContinueCodec.Fits a
    → authen_fields all bytes ≡ ok (some (merge all (authen_continue_fields a)))
unfolding authen_fields
authen_fields-continue all a bytes m short fits =
    let (valid, spelled) = ContinueCodec.marshal-encoding a bytes m in
    start_refuses all authen_start_fields bytes _ (elim short [
      | inl few ↦
          let high : length a.user_message / 256 % 256 ≡ 0 = omega arith in
          rw (← spelled, high) refl
      | inr few ↦
          let high : length a.content / 256 % 256 ≡ 0 = omega arith in
          rw (← spelled, high) (or_true _)
    ])
    ∙ try_fields-ok all authen_continue_fields _ a _
        (rw append-nil at (unmarshal-marshal_authen_continue a bytes [] m fits))

-- A reply whose message is shorter than 256 bytes, and whose data is too short for the continue packet
-- that its first bytes would begin.
pub authen_fields-reply :
    (all : FieldMap) (a : AuthenReply.AuthenReply) (bytes : Bytes)
    → AuthenReply.marshal_binary a ≡ ok bytes
    → IsBytes bytes
    → length a.server_msg < 256
    → length a.content + 1 < a.status * 256 + a.flags
    → length a.content < 65536
    → authen_fields all bytes ≡ ok (some (merge all (authen_reply_fields a)))
unfolding authen_fields
authen_fields-reply all a bytes m small short unlike fits =
    let (valid, spelled) = ReplyCodec.marshal-encoding a bytes m in
    let high : length a.server_msg / 256 % 256 ≡ 0 = omega arith in
    let e : AuthenContinue.unmarshal_binary bytes ≡ err bad_secret =
      (unmarshal-bad_secret_authen_continue bytes small).1
        (rw (← spelled) (omega arith, omega (arith, length-append a.server_msg a.content))) in
    start_refuses all authen_start_fields bytes _ (rw (← spelled, high) (or_true _))
    ∙ (try_fields-err all authen_continue_fields _ bad_secret _ e
        ∙ try_fields-ok all authen_reply_fields _ a _ (
            rw append-nil at (
              unmarshal-marshal_authen_reply a bytes [] m
                (record { first_fits = omega arith; second_fits = fits }))))

pub request_fields-authen :
    (context : Bytes → Option Bytes) (keys : List Bytes) (r : Request)
    → r.header.type ≡ authenticate
    → request_fields context keys r
      ≡ authen_fields (add_context context keys (header_fields r.header)) r.body
unfolding request_fields
request_fields-authen context keys r ty = rw (eq→== r.header.type authenticate ty) refl
