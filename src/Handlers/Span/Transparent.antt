-- ===== src/Handlers/Span/Transparent.antt =====
-- That the copying of a session is not seen by its client, and which replies are copied.
use tacquito.Base.{
  ◌+◌, ◌*◌, ◌<◌, ◌≡◌, refl, sym, ◌∙◌, inl, inr, ◌⊎◌, [], length, Bytes, IsBytes, codes,
}
use tacquito.Base.{arith, ◌∷◌, ℕ, ◌>>=◌}
use tacquito.Fields.{require}
use tacquito.Fields.Header.{
  Version, validate_version, validate_header_type, validate_sequence_number, marshal_version,
}
use tacquito.Authen.Total.{guard-Total, validate_all-Total, require-Total}
use tacquito.Base.{Option, none, some, Result, ok, err, panic}
use tacquito.Base.{Result-cases, some-injective, ◌≢◌}
use tacquito.Report.Requests.{add_context}
use tacquito.Fields.Header.{authenticate}
use tacquito.Header
use tacquito.Header.{Header}
use tacquito.Header.Codec.{IsTyped, received}
use tacquito.Packet
use tacquito.Packet.Codec.{whole}
use tacquito.Authen.Reply as AuthenReply
use tacquito.Server.Response.{Response, Request}
use tacquito.Server.Response.Agree.{Agree, Agree-refl}
use tacquito.Server.Serve.{Script, execute}
use tacquito.Server.Serve.Mirroring.{execute-register_writer}
use tacquito.Report.Maps.{field, merge, header_fields, authen_reply_fields}
use tacquito.Report.Shown.{request_fields-authen, authen_fields-reply}
use tacquito.Handlers.Span.{
  Span, Writer, span_write, span_handle, span_request, request_bytes, new_writer,
}
use tacquito.Handlers.Span.Laws.{span_write-packet_iff, span_write-total}

bind_total {ℓ ℓ'} :
    {A : Type ℓ} {B : Type ℓ'} (r : Result A) (k : A → Result B)
    → r ≢ panic
    → ((a : A) → k a ≢ panic)
    → (r >>= k) ≢ panic
bind_total (ok a) k h each = each a
bind_total (err e) k h each = λ f. cc
bind_total panic k h each = absurd (h refl)

ok_total {ℓ} : {A : Type ℓ} (a : A) → ok a ≢ panic
ok_total a = λ e. cc

version_total : (v : Version) → validate_version v ≢ panic
unfolding validate_version require
version_total v = λ e. ground arith

sequence_total : (n : ℕ) → validate_sequence_number n ≢ panic
unfolding validate_sequence_number
sequence_total n = λ e. ground arith

marshal_header-total : (h : Header) → Header.marshal_binary h ≢ panic
unfolding Header.marshal_binary Header.validate marshal_version validate_header_type
marshal_header-total h =
    bind_total (Header.validate h) _
      (bind_total _ _
        (validate_all-Total (_ ∷ _ ∷ _ ∷ [])
          (version_total h.version, (require-Total _ _, (sequence_total h.seq_no, tt))))
        (λ u. guard-Total _ _ _ (ok_total tt)))
      (λ u.
        bind_total (marshal_version h.version) _
          (bind_total (validate_version h.version) _ (version_total h.version) (λ x. ok_total _))
          (λ x. ok_total _))

-- A packet with a header and a body is marshalled or refused.
request_bytes-total : (req : Request) → request_bytes req ≢ panic
unfolding request_bytes Packet.marshal_binary
request_bytes-total req =
    guard-Total _ _ _ (bind_total _ _ (marshal_header-total req.header) (λ x. ok_total _))

request_total :
    (s : Span) (dialled : Option Bytes) (req : Request)
    → IsTyped req.header
    → req.header.len ≡ length req.body
    → span_request s dialled req ≢ some panic
unfolding span_request request_bytes
request_total s none req t same = λ e. cc
request_total s (some remote) req t same = elim (Result-cases (request_bytes req)) [
  | inl e ↦ λ f.
      span_write-total (new_writer s remote) req.header req.body e.0 t same
        (unfold request_bytes in e.1) (some-injective (rw (span_request, e.1) at f))
  | inr (inl e) ↦ λ f. let bad : none ≡ some panic = rw (span_request, e.1) at f in cc
  | inr (inr e) ↦ absurd (request_bytes-total req e)
]

-- A script behind one more writer, or as it is.
copied_Agree :
    {H : Type 0} (md5 : Bytes → Bytes) (secret : Bytes) (s : Span) (dialled : Option Bytes)
    (next : Request → Script H) (req : Request) (r : Response H) (copied : Option (Result Bytes))
    → span_request s dialled req ≡ copied
    → copied ≢ some panic
    → Agree
        (execute md5 secret (span_handle s dialled next req) r)
        (execute md5 secret (next req) r)
unfolding span_handle
copied_Agree md5 secret s dialled next req r none e h = rw (span_handle, e) (Agree-refl _)
copied_Agree md5 secret s dialled next req r (some (ok b)) e h =
    rw (span_handle, e) (execute-register_writer md5 secret (next req) r)
copied_Agree md5 secret s dialled next req r (some (err x)) e h =
    rw (span_handle, e) (execute-register_writer md5 secret (next req) r)
copied_Agree md5 secret s dialled next req r (some panic) e h = absurd (h refl)

-- For a request that says its body's length, the span handler sends the client just what the next
-- handler sends, and leaves the same header and next handler, whether or not the other host was
-- reached and whatever the filter lets through.
pub span_handle-Agree :
    {H : Type 0} (md5 : Bytes → Bytes) (secret : Bytes) (s : Span) (dialled : Option Bytes)
    (next : Request → Script H) (req : Request) (r : Response H)
    → IsTyped req.header
    → req.header.len ≡ length req.body
    → Agree
        (execute md5 secret (span_handle s dialled next req) r)
        (execute md5 secret (next req) r)
span_handle-Agree md5 secret s dialled next req r t same =
    copied_Agree md5 secret s dialled next req r (span_request s dialled req) refl
      (request_total s dialled req t same)

no_address :
    (h : Header) (a : AuthenReply.AuthenReply)
    → field (merge (header_fields h) (authen_reply_fields a)) (codes "rem-addr") ≡ none
unfolding field merge header_fields authen_reply_fields
no_address h a = refl

-- An authentication reply whose message is shorter than 256 bytes, and whose data has at least two
-- bytes fewer than its status and flags read as a length, is copied whichever client's address is
-- configured, if `switchAddr` is not configured or is the remote address of the connection to the
-- span host, and the packet type is not configured or that of an authentication: its fields have no
-- `rem-addr`. Of other replies, which can be read as a start or a continue packet, nothing is said.
pub span_write-authen_reply :
    (w : Writer) (remote : Bytes) (h : Header) (a : AuthenReply.AuthenReply) (b p : Bytes)
    → w.conn ≡ some remote
    → (w.switch_addr ≡ []) ⊎ (remote ≡ w.switch_addr)
    → (w.packet_type ≡ 0) ⊎ (authenticate ≡ w.packet_type)
    → IsTyped h
    → h.len ≡ length b
    → h.type ≡ authenticate
    → Packet.marshal_binary (whole h b) ≡ ok p
    → AuthenReply.marshal_binary a ≡ ok b
    → IsBytes b
    → length a.server_msg < 256
    → length a.content + 1 < a.status * 256 + a.flags
    → length a.content < 65536
    → span_write w p ≡ ok p
unfolding add_context
span_write-authen_reply w remote h a b p connected switch type t same ty mp m small short unlike
      fits =
    let shown =
      request_fields-authen (λ key. none) [] (record { header = received h; body = b }) ty
      ∙ authen_fields-reply (header_fields (received h)) a b m small short unlike fits in
    (span_write-packet_iff w remote h b p connected t same mp).1 (
      switch,
      rw (← ty) at type,
      inr (
        some (merge (header_fields (received h)) (authen_reply_fields a)),
        shown,
        λ v e. absurd (let bad : none ≡ some v = sym (no_address (received h) a) ∙ e in cc),
      ),
    )
