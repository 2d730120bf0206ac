-- ===== src/Tests/Serving.antt =====
-- A login in two packets: the server asks for a password, then accepts.
use tacquito.Base.{ℕ, zero, ◌%◌, ◌≤◌, ◌≡◌, ◌≢◌, refl, arith, [], ◌∷◌, ◌++◌, Bytes}
use tacquito.Base.{none, some, ok}
use tacquito.Fields.{validate_all}
use tacquito.Fields.Authen.{validate_authen_status}
use tacquito.Fields.Header.{validate_version, validate_header_type, validate_sequence_number}
use tacquito.Header.{Header, validate}
use tacquito.Header.Codec.{received}
use tacquito.Packet.{with_length}
use tacquito.Packet.Codec.{whole}
use tacquito.Crypt.BadSecret.Decodes.{reply}
use tacquito.Crypt.Connection.{read, packet}
use tacquito.Server.Sessions.{Sessions, SessionContext, new_session_provider, set, delete}
use tacquito.Server.Sessions.Laws.{IsKeyed, IsKept}
use tacquito.Server.Response as Responses
use tacquito.Server.Response.{
  Request, Response, Body, authen_reply, reply_header, reply_seq_no, marshal_body,
}
use tacquito.Server.Response.Laws.{reply_arrives}
use tacquito.Server.Serve.{
  Script, finish, call_reply, call_next, closed, initial, handle_request, serve_connection, starved,
}
use tacquito.Server.Serve.Laws.{
  sessions_after, IsSettled, handle_request-other, handle_request-IsSettled, handle_request-IsKeyed,
  handle_request-refuses,
}
use tacquito.Server.Serve.Total.{serve_connection-ends}
use tacquito.Authen.Reply.{AuthenReply}
use tacquito.Authen.Reply
use tacquito.Tests.Toy.{
  toy, length-toy, login_bytes, opening, key, prompt, prompt_bytes, prompt_decodes,
}

-- Handler 0 is the entry.
abbrev handle : ℕ → Request → Script ℕ
handle zero req = call_reply (authen_reply prompt) (λ _. call_next 1 finish)
handle _ req = call_reply (authen_reply (record prompt { status = 1 })) (λ _. finish)

abbrev request : Request
request = record { header = opening; body = login_bytes }

-- Session 7 waits for its third packet, as does session 8.
abbrev waiting : Header → SessionContext ℕ
waiting h = record { header = h; handler = some 1 }

abbrev busy : Sessions ℕ
busy =
    set (set new_session_provider (record opening { seq_no = 2; session_id = 8 }) (some 1))
      (record opening { seq_no = 2 }) (some 1)

reply_arrives_example :
    (out : Bytes) × ((Responses.reply toy key (initial {H = ℕ} opening) (authen_reply prompt)).1
      ≡ ok out)
    × ((Responses.reply toy key (initial {H = ℕ} opening) (authen_reply prompt)).0.sent
        ≡ [] ++ (out ∷ []))
    × (read toy key (out ++ (9 ∷ []))
        ≡ ok (
          packet (
              whole
                (received (with_length prompt_bytes (reply_header opening (authen_reply prompt))))
                prompt_bytes),
          9 ∷ [],
        ))
unfolding marshal_body Reply.marshal_binary Reply.validate validate_all validate_authen_status
    validate validate_version reply_header initial validate_header_type validate_sequence_number
reply_arrives_example =
    reply_arrives toy length-toy key (initial {H = ℕ} opening) (authen_reply prompt) prompt_bytes
      (9 ∷ []) refl (omega arith) refl (omega arith) (reply {a = prompt} refl prompt_decodes)

handle_request-other_example :
    sessions_after (handle_request toy key handle 0 busy request) 8 ≡ busy 8
handle_request-other_example = handle_request-other toy key handle 0 busy request 8 (omega arith)

fresh-IsKeyed : IsKeyed {H = ℕ} new_session_provider
unfolding IsKept new_session_provider
fresh-IsKeyed k sc e = absurd (let e2 : none ≡ some sc = e in cc)

handle_request-IsSettled_example :
    IsSettled 7 (handle_request toy key handle 0 new_session_provider request)
handle_request-IsSettled_example =
    handle_request-IsSettled toy key handle 0 new_session_provider request fresh-IsKeyed

handle_request-IsKeyed_example :
    IsKeyed (sessions_after (handle_request toy key handle 0 new_session_provider request))
handle_request-IsKeyed_example =
    handle_request-IsKeyed toy key handle 0 new_session_provider request fresh-IsKeyed

handle_request-refuses_example :
    ((1 % 256 % 2 ≡ 0) → handle_request toy key handle 0 busy request ≡ closed (delete busy 7))
    × (1 % 256 % 2 ≢ 0
        → 1 % 256 ≤ 2 % 256
        → handle_request toy key handle 0 busy request ≡ closed busy)
unfolding set
handle_request-refuses_example =
    handle_request-refuses toy key handle 0 busy request (waiting (record opening { seq_no = 2 }))
      refl

serve_connection-ends_example : (serve_connection toy key handle 0 login_bytes).ending ≢ starved
serve_connection-ends_example = serve_connection-ends toy key handle 0 login_bytes
