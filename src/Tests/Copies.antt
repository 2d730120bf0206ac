-- ===== src/Tests/Copies.antt =====
-- A copied login, a login behind a proxy, and the packets of the client program.
use tacquito.Base.{
  ℕ, ◌+◌, ◌≤◌, ◌≡◌, ◌↔◌, ◌⊎◌, inl, inr, refl, sym, subst, ◌∙◌, arith, [], ◌∷◌, ◌++◌, Bytes, codes,
}
use tacquito.Base.{length, Option, none, some, ok, ok-injective}
use tacquito.Fields.{validate_all}
use tacquito.Header.{Header, validate}
use tacquito.Header.Codec.{received}
use tacquito.Packet.Codec.{whole}
use tacquito.Crypt.BadSecret.Decodes.{start}
use tacquito.Crypt.Connection.{packet, read, write}
use tacquito.Crypt.Connection.Progress.{read-progress}
use tacquito.Crypt.Connection.RoundTrip.{read-write}
use tacquito.Server.Response.{Request, authen_reply}
use tacquito.Server.Response.Agree.{Agree}
use tacquito.Server.Serve.{
  Script, finish, call_reply, call_next, call_register_writer, execute, initial, serve,
}
use tacquito.Server.Sessions.{new_session_provider}
use tacquito.Server.Serve.Proxied.{serve_proxied}
use tacquito.Server.Serve.Proxied.Laws.{behind_proxy, direct, serve_proxied-serve, Chunk}
use tacquito.Fields.Authen.{authen_status_get_user, authen_status_get_pass, authen_status_pass}
use tacquito.Handlers.{Aaa, handle, entry, get_username, get_password, reply_authen, ask_password}
use tacquito.Handlers.Span.{Span, Writer, span_write, span_handle}
use tacquito.Handlers.Span.Laws.{OfClient, span_write-packet_iff}
use tacquito.Handlers.Span.Transparent.{span_handle-Agree, span_write-authen_reply}
use tacquito.Report.Maps.{FieldMap}
use tacquito.Report.Requests.{request_fields}
use tacquito.Config.Bcrypt as Bcrypt
use tacquito.Login.{new_ascii_authen_sequence, new_pap_request}
use tacquito.Login.Laws.{opening_packet, continue_packet, packet_of, ascii_login-walked}
use tacquito.Login.Pap.{pap_packet, pap_login-handled}
use tacquito.Tests.Toy.{
  toy, length-toy, login, login_bytes, login_decodes, opening, key, prompt, prompt_bytes,
}

-- Copies only of authentication, and only for one client.
abbrev span : Span
span = record {
  destination = codes "span:49";
  switch_addr = [];
  rem_addr = codes "::1";
  packet_type = 1;
}

abbrev to_span : Writer
to_span = record {
  conn = some (codes "::2");
  switch_addr = [];
  rem_addr = codes "::1";
  packet_type = 1;
}

abbrev login_packet : Bytes
login_packet = (192 ∷ 1 ∷ 1 ∷ 0 ∷ 0 ∷ 0 ∷ 0 ∷ 7 ∷ 0 ∷ 0 ∷ 0 ∷ 15 ∷ []) ++ login_bytes

span_write-packet_iff_example : (span_write to_span login_packet ≡ ok login_packet) ↔ (
    ((to_span.switch_addr ≡ []) ⊎ (codes "::2" ≡ to_span.switch_addr))
    × ((to_span.packet_type ≡ 0) ⊎ (opening.type ≡ to_span.packet_type))
    × ((to_span.rem_addr ≡ [])
        ⊎ ((m : Option FieldMap) × (request_fields
                (λ key. none)
                []
                (record { header = received opening; body = login_bytes })
              ≡ ok m)
            × OfClient to_span.rem_addr m)))
unfolding tacquito.Packet.marshal_binary tacquito.Header.marshal_binary validate validate_all
    tacquito.Fields.Header.validate_version tacquito.Fields.Header.validate_header_type
    tacquito.Fields.Header.validate_sequence_number tacquito.Fields.Header.marshal_version
    tacquito.Fields.Header.put_uint32
span_write-packet_iff_example =
    span_write-packet_iff to_span (codes "::2") opening login_bytes login_packet refl (omega arith)
      refl refl

abbrev request : Request
request = record { header = opening; body = login_bytes }

abbrev answered : Request → Script ℕ
answered req = call_reply (authen_reply prompt) (λ _. call_next 1 finish)

span_handle-Agree_example :
    Agree
      (execute toy key (span_handle span (some (codes "::2")) answered request) (initial opening))
      (execute toy key (answered request) (initial opening))
span_handle-Agree_example =
    span_handle-Agree toy key span (some (codes "::2")) answered request (initial opening)
      (omega arith) refl

abbrev prompt_packet : Bytes
prompt_packet = (192 ∷ 1 ∷ 2 ∷ 0 ∷ 0 ∷ 0 ∷ 0 ∷ 7 ∷ 0 ∷ 0 ∷ 0 ∷ 9 ∷ []) ++ prompt_bytes

span_write-authen_reply_example : span_write to_span prompt_packet ≡ ok prompt_packet
unfolding tacquito.Packet.marshal_binary tacquito.Header.marshal_binary validate validate_all
    tacquito.Fields.Header.validate_version tacquito.Fields.Header.validate_header_type
    tacquito.Fields.Header.validate_sequence_number tacquito.Fields.Header.marshal_version
    tacquito.Fields.Header.put_uint32 tacquito.Authen.Reply.marshal_binary
    tacquito.Authen.Reply.validate tacquito.Fields.Authen.validate_authen_status
span_write-authen_reply_example =
    span_write-authen_reply to_span (codes "::2") (record opening { seq_no = 2; len = 9 }) prompt
      prompt_bytes prompt_packet refl (inl refl) (inr refl) (omega arith) refl refl refl refl
      (omega arith) (omega arith) (omega arith) (omega arith)

-- A login in clear.
abbrev plain : Header
plain = record opening { flags = 1 }

abbrev plain_packet : Bytes
plain_packet = (192 ∷ 1 ∷ 1 ∷ 1 ∷ 0 ∷ 0 ∷ 0 ∷ 7 ∷ 0 ∷ 0 ∷ 0 ∷ 15 ∷ []) ++ login_bytes

plain_written : write toy key (some (whole plain login_bytes)) ≡ ok plain_packet
unfolding write tacquito.Crypt.crypt tacquito.Fields.Header.flag_has tacquito.Packet.marshal_binary
    tacquito.Header.marshal_binary validate validate_all tacquito.Fields.Header.validate_version
    tacquito.Fields.Header.validate_header_type tacquito.Fields.Header.validate_sequence_number
    tacquito.Fields.Header.marshal_version tacquito.Fields.Header.put_uint32
plain_written = refl

plain-read :
    (rest : Bytes)
    → read toy key (plain_packet ++ rest) ≡ ok (packet (whole plain login_bytes), rest)
unfolding validate validate_all tacquito.Fields.Header.validate_version
    tacquito.Fields.Header.validate_header_type tacquito.Fields.Header.validate_sequence_number
plain-read rest =
    let (out, written, arrived) =
      read-write toy length-toy key plain login_bytes rest (omega arith) refl (omega arith)
        (start {a = login} refl login_decodes) in
    subst (λ (p : Bytes). read toy key (p ++ rest) ≡ ok (packet (whole plain login_bytes), rest))
      (ok-injective (sym written ∙ plain_written)) arrived

abbrev local : Bytes → Bytes
local ip = codes "::1"

abbrev port : ℕ → Bytes
port n = codes "49"

abbrev prompting : ℕ → Request → Script ℕ
prompting handler req = call_reply (authen_reply prompt) (λ _. finish)

abbrev chunk : Chunk Bytes
chunk = record { client = ([], 49); remote = ([], 49); bytes = plain_packet }

serve_proxied-serve_example :
    serve_proxied Bytes toy key prompting 0 2 new_session_provider
      (behind_proxy local port (chunk ∷ []))
    ≡ serve toy key prompting 0 2 new_session_provider (direct (chunk ∷ []))
serve_proxied-serve_example =
    serve_proxied-serve Bytes toy key prompting 0 local port (λ i. (omega arith))
      (λ p. (omega arith)) (chunk ∷ []) 2 new_session_provider
      ((packet (whole plain login_bytes), plain-read), tt)

read-progress_example : length {A = ℕ} (9 ∷ []) + 12 ≤ length (plain_packet ++ (9 ∷ []))
read-progress_example =
    read-progress toy key (plain_packet ++ (9 ∷ [])) (9 ∷ []) (packet (whole plain login_bytes))
      (plain-read (9 ∷ []))

abbrev nobody : Aaa
nobody = record { authenticator = λ r. finish; authorizer = λ r. finish; accounter = λ r. finish }

abbrev users : Bytes → Option Aaa
users name = some nobody

abbrev print_nothing : ℕ → Bytes
print_nothing n = []

ascii_login-walked_example :
    (new_ascii_authen_sequence (codes "bob") (codes "secret")
      ≡ ok (
          record { packet = packet_of opening_packet; expected = authen_status_get_user }
          ∷ record {
            packet = packet_of (continue_packet 3 (codes "bob"));
            expected = authen_status_get_pass;
          }
          ∷ record {
            packet = packet_of (continue_packet 5 (codes "bob"));
            expected = authen_status_pass;
          }
          ∷ []))
    × (handle users print_nothing entry opening_packet
        ≡ call_register_writer
            (call_next (get_username []) (reply_authen authen_status_get_user (codes "username:"))))
    × (handle users print_nothing (get_username []) (continue_packet 3 (codes "bob"))
        ≡ call_register_writer (ask_password users print_nothing (codes "bob")))
    × (handle users print_nothing (get_password (codes "bob")) (continue_packet 5 (codes "bob"))
        ≡ call_register_writer finish)
    × (Bcrypt.get_password (continue_packet 5 (codes "bob")) ≡ ok (codes "bob"))
unfolding tacquito.Wire.is_all_ascii
ascii_login-walked_example =
    ascii_login-walked users print_nothing (codes "bob") (codes "secret") nobody refl (omega arith)
      (omega arith) refl

pap_login-handled_example :
    (new_pap_request 7 1 [] [] (codes "bob") (codes "secret")
      ≡ ok (packet_of (pap_packet 7 1 [] [] (codes "bob") (codes "secret"))))
    × (handle users print_nothing entry (pap_packet 7 1 [] [] (codes "bob") (codes "secret"))
        ≡ call_register_writer finish)
    × (Bcrypt.get_password (pap_packet 7 1 [] [] (codes "bob") (codes "secret"))
        ≡ ok (codes "secret"))
unfolding tacquito.Wire.is_all_ascii
pap_login-handled_example =
    pap_login-handled users print_nothing 7 1 [] [] (codes "bob") (codes "secret") nobody
      (record {
        priv_lvl_le = omega arith;
        user_ascii = refl;
        port_ascii = refl;
        rem_addr_ascii = refl;
        user_short = omega arith;
        port_short = omega arith;
        rem_addr_short = omega arith;
        password_short = omega arith;
      })
      (omega arith) (omega arith) refl
