-- ===== src/Report/Mirrored.antt =====
-- That the writer of response_logger.go records the replies that `Reply` mirrors to it.
use tacquito.Base.{◌+◌, ◌*◌, ◌^◌, ◌<◌, ◌≡◌, refl, ◌∙◌, arith, [], ◌++◌, append-nil}
use tacquito.Base.{length, Bytes, IsBytes, some, none, ok}
use tacquito.Fields.Header.{authenticate}
use tacquito.Header.{Header, validate}
use tacquito.Header.Codec.{IsTyped, received, validate-IsChecked, marshal_lem}
use tacquito.Packet
use tacquito.Packet.{with_length}
use tacquito.Packet.Codec.{whole, unmarshal-marshal_packet, marshal-whole}
use tacquito.Authen.Reply as AuthenReply
use tacquito.Server.Response.{Response, marshal_body, authen_reply, reply, reply_header, replicate}
use tacquito.Server.Response.Laws.{reply-mirrored}
use tacquito.Report.Maps.{merge, header_fields, authen_reply_fields}
use tacquito.Report.Requests.{add_context, log_write}
use tacquito.Report.Requests.{request_fields}
use tacquito.Report.Shown.{request_fields-authen, authen_fields-reply}

log_write-packet :
    (h : Header) (b p : Bytes)
    → IsTyped h
    → h.len ≡ length b
    → Packet.marshal_binary (whole h b) ≡ ok p
    → log_write p ≡ request_fields (λ key. none) [] (record { header = received h; body = b })
unfolding log_write
log_write-packet h b p t same m =
    rw (rw append-nil at (unmarshal-marshal_packet h b p [] [] t same m)) refl

-- A packet under a valid header can be marshalled.
marshalled :
    (h : Header) (b : Bytes)
    → validate h ≡ ok tt
    → (p : Bytes) × (Packet.marshal_binary (whole h b) ≡ ok p)
marshalled h b v = (_, marshal-whole h b _ (validate-IsChecked h v).len_le (marshal_lem h v))

log_write-reply :
    (h : Header) (a : AuthenReply.AuthenReply) (b p : Bytes)
    → IsTyped h
    → h.len ≡ length b
    → h.type ≡ authenticate
    → Packet.marshal_binary (whole h b) ≡ ok p
    → AuthenReply.marshal_binary a ≡ ok b
    → IsBytes b
    → length a.server_msg < 256
    → length a.content + 1 < a.status * 256 + a.flags
    → length a.content < 65536
    → log_write p ≡ ok (some (merge (header_fields (received h)) (authen_reply_fields a)))
unfolding add_context
log_write-reply h a b p t same ty mp m small short unlike fits =
    log_write-packet h b p t same mp
    ∙ (request_fields-authen (λ key. none) [] (record { header = received h; body = b }) ty
        ∙ authen_fields-reply (header_fields (received h)) a b m small short unlike fits)

-- An authentication reply whose message is shorter than 256 bytes, and whose data has at least two
-- bytes fewer than its status and flags read as a length, if its body marshals to bytes, under a
-- header that is valid with their length, is mirrored once to every writer, as a packet that the
-- writer of the response logger reads and records with the reply's own fields, beside those of the
-- header. Of other replies, which can be read as a start or a continue packet, nothing is said.
pub log_write-mirrored :
    {H : Type 0} (md5 : Bytes → Bytes) (secret : Bytes) (r : Response H)
    (a : AuthenReply.AuthenReply) (b : Bytes)
    → AuthenReply.marshal_binary a ≡ ok b
    → IsBytes b
    → length b < 2 ^ 32
    → r.header.type ≡ authenticate
    → validate (with_length b (reply_header r.header (authen_reply a))) ≡ ok tt
    → IsTyped (reply_header r.header (authen_reply a))
    → length a.server_msg < 256
    → length a.content + 1 < a.status * 256 + a.flags
    → length a.content < 65536
    → (p : Bytes) × ((reply md5 secret r (authen_reply a)).0.mirrored
        ≡ r.mirrored ++ replicate r.writers p)
      × (log_write p
          ≡ ok (
              some (
                merge
                  (header_fields
                    (received (with_length b (reply_header r.header (authen_reply a)))))
                  (authen_reply_fields a))))
log_write-mirrored md5 secret r a b m small word ty valid typed short unlike fits =
    let h : Header = with_length b (reply_header r.header (authen_reply a)) in
    let t : IsTyped h = record {
      flags_byte = typed.flags_byte;
      session_id_word = typed.session_id_word;
    } in
    let same : h.len ≡ length b = omega arith in
    let (p, mp) = marshalled h b valid in
    (
      p,
      reply-mirrored md5 secret r (authen_reply a) b p (unfold marshal_body in m) mp,
      log_write-reply h a b p t same (unfold reply_header in ty) mp m small short unlike fits,
    )
