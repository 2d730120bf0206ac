-- ===== src/Tests/Exchange.antt =====
-- A client asks the loop of a server to log in, and reads its prompt.
use tacquito.Base.{ℕ, ◌≡◌, refl, arith, some, ok}
use tacquito.Fields.{validate_all}
use tacquito.Fields.Authen.{validate_authen_status}
use tacquito.Fields.Header.{validate_version, validate_header_type, validate_sequence_number}
use tacquito.Header.{validate}
use tacquito.Header.Codec.{received}
use tacquito.Packet.{with_length}
use tacquito.Packet.Codec.{whole}
use tacquito.Crypt.BadSecret.Decodes.{start, reply}
use tacquito.Server.Response.{Request, authen_reply, reply_header, marshal_body}
use tacquito.Server.Serve.{Script, finish, call_reply, call_register_writer, serve_connection}
use tacquito.Authen.Reply
use tacquito.Client.{send}
use tacquito.Client.Laws.{joined, send-serve_connection}
use tacquito.Tests.Toy.{
  toy, length-toy, login, login_bytes, login_decodes, opening, key, prompt, prompt_bytes,
  prompt_decodes,
}

abbrev prompting : ℕ → Request → Script ℕ
prompting handler req = call_register_writer (call_reply (authen_reply prompt) (λ _. finish))

send-serve_connection_example :
    send toy key
      (some (whole opening login_bytes))
      (λ out. joined (serve_connection toy key prompting 0 out).sent)
    ≡ ok (
        whole
          (received (
            with_length prompt_bytes
              (reply_header (received (with_length login_bytes opening)) (authen_reply prompt))))
          prompt_bytes)
unfolding marshal_body Reply.marshal_binary Reply.validate validate_all validate_authen_status
    validate validate_version reply_header validate_header_type validate_sequence_number
send-serve_connection_example =
    send-serve_connection toy length-toy key prompting 0 opening login_bytes prompt_bytes
      (authen_reply prompt) (omega arith, refl, omega arith, start {a = login} refl login_decodes)
      (omega arith) refl refl
      (omega arith, refl, omega arith, reply {a = prompt} refl prompt_decodes)
