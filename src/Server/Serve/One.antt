-- ===== src/Server/Serve/One.antt =====
-- A connection that carries one packet.
use tacquito.Base.{
  ℕ, zero, suc, ◌+◌, ◌%◌, ◌≡◌, ◌≢◌, refl, ap, arith, ◌∙◌, ne→==, [], append-nil, length, Bytes,
  Option, none, some, ok,
}
use tacquito.Fields.Header.{validate_client_sequence_number}
use tacquito.Header.{Header}
use tacquito.Packet.Codec.{whole}
use tacquito.Crypt.Connection.{read, read_full, packet}
use tacquito.Server.Sessions.{Sessions, new_session_provider, set, get}
use tacquito.Server.Response.{Request, Response}
use tacquito.Server.Serve.{Script, Step, served, execute, initial}
use tacquito.Server.Serve.{
  conclude, dispatch, resume, handle_request, handle_packet, follow, before, round, serve,
  serve_connection,
}

get-fresh :
    {H : Type 0} (h : Header)
    → h.seq_no % 256 % 2 ≢ 0
    → get {H = H} new_session_provider h ≡ (new_session_provider, ok none)
unfolding get new_session_provider validate_client_sequence_number
get-fresh h odd =
    let n = ne→== (h.seq_no % 256 % 2) 0 odd in rw (get, validate_client_sequence_number, n) refl

module _ {H : Type 0} (md5 : Bytes → Bytes) (secret : Bytes) (handle : H → Request → Script H)
    (entry : H) where
  conclude-served :
      (s : Sessions H) (h : Header) (r : Response H) (n : Option H)
      → (t : Sessions H) × (conclude md5 secret handle entry s h r n ≡ served t r)
  unfolding conclude
  conclude-served s h r none = (_, refl)
  conclude-served s h r (some n) = (_, refl)

  -- A first packet runs the entry.
  handle_request-fresh :
      (req : Request)
      → req.header.seq_no % 256 % 2 ≢ 0
      → (t : Sessions H) × (handle_request md5 secret handle entry new_session_provider req
          ≡ served t (execute md5 secret (handle entry req) (initial req.header)))
  unfolding handle_request resume dispatch
  handle_request-fresh req odd =
      let r = execute md5 secret (handle entry req) (initial req.header) in
      let (t, e) = conclude-served (set new_session_provider req.header none) req.header r r.next in
      (t, rw (handle_request, get-fresh req.header odd) e)

  serve-silent : (n : ℕ) (t : Sessions H) → (serve md5 secret handle entry n t []).sent ≡ []
  unfolding serve round read read_full
  serve-silent zero t = refl
  serve-silent (suc n) t = refl

  follow-served :
      (n : ℕ) (req : Request) (t : Sessions H) (r : Response H) (step : Step H)
      → step ≡ served t r
      → (follow md5 secret handle entry
          (λ t. serve md5 secret handle entry n t [])
          (some step)).sent
        ≡ r.sent
  unfolding follow before
  follow-served n req t r step e = rw e (rw (serve-silent n t) (append-nil r.sent))

  -- A connection of one packet, with no handler: what the entry writes is all that is written.
  pub serve_connection-one :
      (out : Bytes) (req : Request)
      → read md5 secret out ≡ ok (packet (whole req.header req.body), [])
      → req.header.seq_no % 256 % 2 ≢ 0
      → (serve_connection md5 secret handle entry out).sent
        ≡ (execute md5 secret (handle entry req) (initial req.header)).sent
  unfolding serve_connection serve round handle_packet
  serve_connection-one out req arrived odd =
      let (t, e) = handle_request-fresh req odd in
      let more : (length out + 1) ≡ suc (length out) = omega arith in
      ap (λ n. (serve md5 secret handle entry n new_session_provider out).sent) more
      ∙ (ap
            (λ m.
              (round md5 secret handle entry (serve md5 secret handle entry (length out))
                new_session_provider m).sent)
            arrived
          ∙ follow-served (length out) req t _ _ e)
