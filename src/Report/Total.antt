-- ===== src/Report/Total.antt =====
-- That no decoder panics, and so that the fields of any request can be asked for.
use tacquito.Base.{
  ℕ, Bool, true, false, if◌then◌else◌, refl, ◌≢◌, arith, List, [], ◌∷◌, Bytes, Option, none, Result,
  ok, err, panic,
}
use tacquito.Fields.Authen.{
  validate_authen_status, validate_priv_lvl, validate_authen_type, validate_authen_service,
}
use tacquito.Fields.Authen.{validate_authen_user, validate_authen_port, validate_authen_rem_addr}
use tacquito.Fields.Author.{
  validate_authen_method, validate_arg, validate_args, validate_author_status,
}
use tacquito.Fields.Author.{validate_author_server_msg, validate_author_data}
use tacquito.Fields.Acct.{
  validate_acct_request_flag, validate_acct_reply_status, validate_acct_server_msg,
  validate_acct_data,
}
use tacquito.Authen.Reply as AuthenReply
use tacquito.Author.Request as AuthorRequest
use tacquito.Author.Reply as AuthorReply
use tacquito.Acct.Request as AcctRequest
use tacquito.Acct.Reply as AcctReply
use tacquito.Authen.Total.{
  Total, no_panic, validate_all-Total, require-Total, checked-Total, guard-Total,
}
use tacquito.Authen.Total.{unmarshal_start-total, unmarshal_continue-total}
use tacquito.Server.Response.{Request}
use tacquito.Report.Maps.{FieldMap}
use tacquito.Report.Requests.{try_fields, authen_fields, author_fields, acct_fields, request_fields}

validate_args-Total : (ts : List Bytes) → Total (validate_args ts)
unfolding validate_args
validate_args-Total [] = λ e. cc
validate_args-Total (t ∷ ts) = no_panic _ _ (arg_total t) (validate_args-Total ts)
  where
    arg_total : (t : Bytes) → Total (validate_arg t)
    arg_total t = unfold validate_arg in (λ e. ground arith)

flag-Total : (t : ℕ) → Total (validate_acct_request_flag t)
unfolding validate_acct_request_flag
flag-Total t = λ e. ground arith

unmarshal_authen_reply-total : (s : Bytes) → AuthenReply.unmarshal_binary s ≢ panic
unfolding AuthenReply.unmarshal_binary AuthenReply.validate validate_authen_status
unmarshal_authen_reply-total s =
    guard-Total _ _ _ (checked-Total _ _ _ (validate_all-Total (_ ∷ []) (require-Total _ _, tt)))

unmarshal_author_request-total : (s : Bytes) → AuthorRequest.unmarshal_binary s ≢ panic
unfolding AuthorRequest.unmarshal_binary AuthorRequest.validate validate_authen_method
    validate_priv_lvl validate_authen_type validate_authen_service validate_authen_user
    validate_authen_port validate_authen_rem_addr
unmarshal_author_request-total s = guard-Total _ _ _ (
    checked-Total _ _ _ (
      no_panic _ _
        (validate_all-Total (_ ∷ _ ∷ _ ∷ _ ∷ _ ∷ _ ∷ _ ∷ []) (
          require-Total _ _,
          (
            require-Total _ _,
            (
              require-Total _ _,
              (
                require-Total _ _,
                (require-Total _ _, (require-Total _ _, (require-Total _ _, tt))),
              ),
            ),
          ),
        ))
        (validate_args-Total _)))

unmarshal_author_reply-total : (s : Bytes) → AuthorReply.unmarshal_binary s ≢ panic
unfolding AuthorReply.unmarshal_binary AuthorReply.validate validate_author_status
    validate_author_server_msg validate_author_data
unmarshal_author_reply-total s = guard-Total _ _ _ (
    checked-Total _ _ _ (
      no_panic _ _
        (validate_all-Total (_ ∷ _ ∷ _ ∷ [])
          (require-Total _ _, (require-Total _ _, (require-Total _ _, tt))))
        (validate_args-Total _)))

unmarshal_acct_request-total : (s : Bytes) → AcctRequest.unmarshal_binary s ≢ panic
unfolding AcctRequest.unmarshal_binary AcctRequest.validate validate_authen_method validate_priv_lvl
    validate_authen_type validate_authen_service validate_authen_user validate_authen_port
    validate_authen_rem_addr
unmarshal_acct_request-total s = guard-Total _ _ _ (
    checked-Total _ _ _ (
      no_panic _ _
        (validate_all-Total (_ ∷ _ ∷ _ ∷ _ ∷ _ ∷ _ ∷ _ ∷ _ ∷ []) (
          require-Total _ _,
          (
            require-Total _ _,
            (
              require-Total _ _,
              (
                require-Total _ _,
                (require-Total _ _, (require-Total _ _, (require-Total _ _, (flag-Total _, tt)))),
              ),
            ),
          ),
        ))
        (validate_args-Total _)))

unmarshal_acct_reply-total : (s : Bytes) → AcctReply.unmarshal_binary s ≢ panic
unfolding AcctReply.unmarshal_binary AcctReply.validate validate_acct_reply_status
    validate_acct_server_msg validate_acct_data
unmarshal_acct_reply-total s = guard-Total _ _ _ (
    checked-Total _ _ _ (
      validate_all-Total (_ ∷ _ ∷ _ ∷ [])
        (require-Total _ _, (require-Total _ _, (require-Total _ _, tt)))))

try_fields-total {ℓ} :
    {A : Type ℓ} (all : FieldMap) (fields : A → FieldMap) (r : Result A)
    (later : Result (Option FieldMap))
    → r ≢ panic
    → later ≢ panic
    → try_fields all fields r later ≢ panic
unfolding try_fields
try_fields-total all fields (ok a) later h k = λ e. cc
try_fields-total all fields (err e) later h k = k
try_fields-total all fields panic later h k = λ e. h refl

if_total :
    (b : Bool) (r t : Result (Option FieldMap))
    → r ≢ panic
    → t ≢ panic
    → (if b then r else t) ≢ panic
if_total true r t h k = h
if_total false r t h k = k

nothing : ◌≢◌ {A = Result (Option FieldMap)} (ok none) panic
nothing e = cc

-- The fields of a request can be asked for whatever its type and its body: no decoder that is tried
-- panics, on any bytes.
pub request_fields-total :
    (context : Bytes → Option Bytes) (keys : List Bytes) (req : Request)
    → request_fields context keys req ≢ panic
unfolding request_fields authen_fields author_fields acct_fields
request_fields-total context keys req =
    if_total _ _ _
      (try_fields-total _ _ _ _ (unmarshal_start-total req.body) (
        try_fields-total _ _ _ _ (unmarshal_continue-total req.body)
          (try_fields-total _ _ _ _ (unmarshal_authen_reply-total req.body) nothing)))
      (if_total _ _ _
        (try_fields-total _ _ _ _ (unmarshal_author_request-total req.body)
          (try_fields-total _ _ _ _ (unmarshal_author_reply-total req.body) nothing))
        (if_total _ _ _
          (try_fields-total _ _ _ _ (unmarshal_acct_request-total req.body)
            (try_fields-total _ _ _ _ (unmarshal_acct_reply-total req.body) nothing))
          nothing))
