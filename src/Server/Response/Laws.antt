-- ===== src/Server/Response/Laws.antt =====
-- What a reply keeps of the header it answers, and that it arrives.
use tacquito.Base.{◌^◌, ◌<◌, ◌≡◌, refl, ◌∙◌, [], ◌∷◌, ◌++◌, length, Bytes}
use tacquito.Base.{some, Result, ok, err, panic}
use tacquito.Header.{Header, validate}
use tacquito.Header.Codec.{IsTyped, received}
use tacquito.Packet.{with_length, new_packet, set_packet_header, set_packet_body}
use tacquito.Packet
use tacquito.Server.Response.{replicate}
use tacquito.Packet.Codec.{whole}
use tacquito.Crypt.BadSecret.Decodes.{Decodes}
use tacquito.Crypt.Connection.{write, read, packet}
use tacquito.Crypt.Connection.RoundTrip.{read-write}
use tacquito.Server.Response.{
  Body, Response, marshal_body, reply_header, deliver, mirror, reply, reply_marshalled,
}

module _ {H : Type 0} where
  deliver-header : (r : Response H) (out : Result Bytes) → (deliver r out).header ≡ r.header
  unfolding deliver
  deliver-header r (ok b) = refl
  deliver-header r (err e) = refl
  deliver-header r panic = refl

  mirror-header : (r : Response H) (out : Result Bytes) → (mirror r out).header ≡ r.header
  unfolding mirror
  mirror-header r (ok b) = refl
  mirror-header r (err e) = refl
  mirror-header r panic = refl

  mirror-sent : (r : Response H) (out : Result Bytes) → (mirror r out).sent ≡ r.sent
  unfolding mirror
  mirror-sent r (ok b) = refl
  mirror-sent r (err e) = refl
  mirror-sent r panic = refl

  deliver-sent : (r : Response H) (b : Bytes) → (deliver r (ok b)).sent ≡ r.sent ++ (b ∷ [])
  unfolding deliver
  deliver-sent r b = refl

  deliver-mirrored : (r : Response H) (out : Result Bytes) → (deliver r out).mirrored ≡ r.mirrored
  unfolding deliver
  deliver-mirrored r (ok b) = refl
  deliver-mirrored r (err e) = refl
  deliver-mirrored r panic = refl

  pub deliver-session_id :
      (r : Response H) (out : Result Bytes)
      → (deliver r out).header.session_id ≡ r.header.session_id
  deliver-session_id r out = rw (deliver-header r out) refl

  reply_header-type : (r : Response H) (v : Body) → (reply_header r.header v).type ≡ r.header.type
  unfolding reply_header
  reply_header-type r v = refl

  reply_header-session_id :
      (r : Response H) (v : Body) → (reply_header r.header v).session_id ≡ r.header.session_id
  unfolding reply_header
  reply_header-session_id r v = refl

  module _ (md5 : Bytes → Bytes) where
    reply_marshalled-session_id :
        (secret : Bytes) (r : Response H) (v : Body) (m : Result Bytes)
        → (reply_marshalled md5 secret r (reply_header r.header v) m).0.header.session_id
          ≡ r.header.session_id
    unfolding reply_marshalled
    reply_marshalled-session_id secret r v (ok b) =
        rw (deliver-header, mirror-header) (reply_header-session_id r v)
    reply_marshalled-session_id secret r v (err e) = refl
    reply_marshalled-session_id secret r v panic = refl

    -- A reply that is written.
    reply_marshalled-written :
        (secret : Bytes) (r : Response H) (h : Header) (b out : Bytes)
        → write md5 secret (some (new_packet (set_packet_header h ∷ set_packet_body b ∷ [])))
          ≡ ok out
        → ((reply_marshalled md5 secret r h (ok b)).1 ≡ ok out)
          × ((reply_marshalled md5 secret r h (ok b)).0.sent ≡ r.sent ++ (out ∷ []))
    unfolding reply_marshalled
    reply_marshalled-written secret r h b out written =
        (written, rw written (deliver-sent _ out ∙ rw mirror-sent refl))

    -- Every writer is given the packet of a reply that can be marshalled, before it is obfuscated.
    pub reply-mirrored :
        (secret : Bytes) (r : Response H) (v : Body) (b p : Bytes)
        → marshal_body v ≡ ok b
        → Packet.marshal_binary (whole (with_length b (reply_header r.header v)) b) ≡ ok p
        → (reply md5 secret r v).0.mirrored ≡ r.mirrored ++ replicate r.writers p
    unfolding reply reply_marshalled mirror
    reply-mirrored secret r v b p m mp = rw (m, deliver-mirrored, mp) refl

    pub reply-session_id :
        (secret : Bytes) (r : Response H) (v : Body)
        → (reply md5 secret r v).0.header.session_id ≡ r.header.session_id
    unfolding reply
    reply-session_id secret r v = reply_marshalled-session_id secret r v (marshal_body v)

    module _ (md5_size : (x : Bytes) → length (md5 x) ≡ 16) where
      -- A reply whose body marshals to bytes that decode as a packet of the request's type, and whose
      -- header is valid with their length, is written, and the client, with the same secret, reads
      -- that body back under the reply's header.
      pub reply_arrives :
          (secret : Bytes) (r : Response H) (v : Body) (b rest : Bytes)
          → marshal_body v ≡ ok b
          → length b < 2 ^ 32
          → validate (with_length b (reply_header r.header v)) ≡ ok tt
          → IsTyped (reply_header r.header v)
          → Decodes b r.header.type
          → (out : Bytes) × ((reply md5 secret r v).1 ≡ ok out)
            × ((reply md5 secret r v).0.sent ≡ r.sent ++ (out ∷ []))
            × (read md5 secret (out ++ rest)
                ≡ ok (packet (whole (received (with_length b (reply_header r.header v))) b), rest))
      unfolding reply
      reply_arrives secret r v b rest m small valid typed d =
          let (out, written, arrived) =
            read-write md5 md5_size secret (with_length b (reply_header r.header v)) b rest small
              valid
              (record { flags_byte = typed.flags_byte; session_id_word = typed.session_id_word })
              (rw (reply_header-type r v) d) in
          let (answered, sent) =
            reply_marshalled-written secret r (reply_header r.header v) b out written in
          (out, rw m answered, rw m sent, arrived)
