-- ===== src/Client/Laws.antt =====
-- A client and a server on one connection.
use tacquito.Base.{◌%◌, ◌^◌, ◌<◌, ◌≡◌, ◌≢◌, refl, ◌∙◌}
use tacquito.Base.{List, [], ◌∷◌, ◌++◌, append-nil, length, Bytes, some, ok}
use tacquito.Header.{Header, validate}
use tacquito.Header.Codec.{IsTyped, received}
use tacquito.Packet.{with_length}
use tacquito.Packet.Codec.{whole}
use tacquito.Crypt.BadSecret.Decodes.{Decodes}
use tacquito.Crypt.Connection.{read, packet}
use tacquito.Crypt.Connection.RoundTrip.{read-write}
use tacquito.Server.Response.{Request, Body, marshal_body, reply_header, register_writer}
use tacquito.Server.Response.Laws.{reply_arrives}
use tacquito.Server.Serve.{Script, execute, initial, finish, call_reply, call_register_writer}
use tacquito.Server.Serve.{serve_connection}
use tacquito.Server.Serve.One.{serve_connection-one}
use tacquito.Client.{send, read_packet}

-- All that was written, in one piece.
abbrev pub joined : List Bytes → Bytes
joined [] = []
joined (b ∷ bs) = b ++ joined bs

module _ {H : Type 0} (md5 : Bytes → Bytes) (md5_size : (x : Bytes) → length (md5 x) ≡ 16)
    (secret : Bytes) (handle : H → Request → Script H) (entry : H) where
  -- For a hash of sixteen bytes, a client and a server with the same secret, and a connection that
  -- carries one packet: if the packet's sequence number is odd, its header is valid and typed, its
  -- body is shorter than 2 ^ 32 and decodes as the header says, and the entry handler, behind a
  -- registered writer, answers it with one reply, whose packet meets the same conditions, then
  -- `Send` returns that reply: what the server writes is what the client reads.
  pub send-serve_connection :
      (h : Header) (b c : Bytes) (v : Body)
      → (length b < 2 ^ 32) × (validate (with_length b h) ≡ ok tt) × IsTyped h × Decodes b h.type
      → h.seq_no % 256 % 2 ≢ 0
      → handle entry (record { header = received (with_length b h); body = b })
        ≡ call_register_writer (call_reply v (λ _. finish))
      → marshal_body v ≡ ok c
      → (length c < 2 ^ 32)
        × (validate (with_length c (reply_header (received (with_length b h)) v)) ≡ ok tt)
        × IsTyped (reply_header (received (with_length b h)) v)
        × Decodes c h.type
      → send md5 secret
          (some (whole h b))
          (λ out. joined (serve_connection md5 secret handle entry out).sent)
        ≡ ok (whole (received (with_length c (reply_header (received (with_length b h)) v))) c)
  unfolding send read_packet execute initial register_writer
  send-serve_connection h b c v (small, valid, typed, decodes) odd answered marshalled
        (small2, valid2, typed2, decodes2) =
      let req : Request = record { header = received (with_length b h); body = b } in
      let (out, written, arrived) =
        read-write md5 md5_size secret h b [] small valid typed decodes in
      let (back, replied, sent, returned) =
        reply_arrives md5 md5_size secret (register_writer (initial {H = H} req.header)) v c []
          marshalled small2 valid2 typed2 decodes2 in
      let alone : read md5 secret out ≡ ok (packet (whole req.header b), []) =
        rw (append-nil out) at arrived in
      let ran : (execute md5 secret (handle entry req) (initial req.header)).sent ≡ back ∷ [] =
        rw answered sent in
      let wrote = serve_connection-one md5 secret handle entry out req alone odd ∙ ran in
      rw (written, wrote, returned) refl
