-- ===== src/Server/Serve.antt =====
-- server.go: the loop of `handle` over one connection. A handler is any program that talks to the
-- `Response` it is given; contexts, deadlines, counters and logs are left out.
pub mod Laws
pub mod Total
pub mod One
pub mod Proxied
pub mod Mirroring
use tacquito.Base.{
  ℕ, zero, suc, ◌+◌, List, [], ◌∷◌, ◌++◌, length, Bytes, Option, none, some, Result, ok, err, panic,
}
use tacquito.Header.{Header}
use tacquito.Packet.{Packet}
use tacquito.Crypt.Connection.{Arrival, packet, refused, read, write}
use tacquito.Server.Sessions.{Sessions, get, set, update, delete, new_session_provider}
use tacquito.Server.Response.{
  Request, Body, Response, reply, deliver, next_handler, register_writer,
}

-- What the body of a `Handle` does with the interface `Response`, call after call, each of which may
-- depend on what the calls before it returned.
pub data Script (H : Type 0) : Type 0 where
  finish : Script H
  call_reply : Body → (Result Bytes → Script H) → Script H
  call_write : Option Packet → (Result Bytes → Script H) → Script H
  call_next : H → Script H → Script H
  call_register_writer : Script H → Script H

pub data Step (H : Type 0) : Type 0 where
  closed : Sessions H → Step H
  served : Sessions H → Response H → Step H

pub data Ending : Type 0 where
  -- the stream is over, or a read failed
  read_failed : Ending
  bad_session : Ending
  panicked : Ending
  -- the fuel is spent
  starved : Ending

-- All that was written to the connection, and why the loop was left.
pub record Outcome : Type 0 where
  pub sent : List Bytes
  pub ending : Ending

module _ {H : Type 0} (md5 : Bytes → Bytes) (secret : Bytes) where
  unfoldable pub execute : Script H → Response H → Response H
  execute finish r = r
  execute (call_reply v k) r =
      let (after, result) = reply md5 secret r v in execute (k result) after
  execute (call_write p k) r = execute (k (write md5 secret p)) (deliver r (write md5 secret p))
  execute (call_next n k) r = execute k (next_handler r n)
  execute (call_register_writer k) r = execute k (register_writer r)

unfoldable pub initial : {H : Type 0} → Header → Response H
initial h = record { header = h; next = none; writers = 0; mirrored = []; sent = [] }

module _ {H : Type 0} (md5 : Bytes → Bytes) (secret : Bytes) where
  -- `handle` is the method of the handlers, `entry` the handler for new flows.
  module _ (handle : H → Request → Script H) (entry : H) where
    -- After the handler: the session is over, or waits for its next packet.
    conclude : Sessions H → Header → Response H → Option H → Step H
    conclude s h r none = served (delete s h.session_id) r
    conclude s h r (some n) = served (update s r.header (some n)) r

    dispatch : Sessions H → Request → H → Step H
    unfolding conclude
    dispatch s req state =
        let r = execute md5 secret (handle state req) (initial req.header) in
        conclude s req.header r r.next

    -- No handler, no session or one that has none: the entry, in a session without a handler.
    resume : Sessions H → Request → Result (Option H) → Step H
    unfolding dispatch
    resume s req (ok (some state)) = dispatch s req state
    resume s req (ok none) = dispatch (set s req.header none) req entry
    resume s req (err e) = closed s
    resume s req panic = closed s

    unfoldable pub handle_request : Sessions H → Request → Step H
    unfolding resume
    handle_request s req = let (t, state) = get s req.header in resume t req state

    -- The request of a packet: `*packet.Header`.
    handle_packet : Sessions H → Packet → Option (Step H)
    handle_packet s p = elim p.header [
      | none ↦ none
      | some h ↦
          some (
            handle_request s (record { header = h; body = elim p.body [ none ↦ [] | some b ↦ b ] }))
    ]

    before : List Bytes → Outcome → Outcome
    before sent o = record { sent = sent ++ o.sent; ending = o.ending }

    -- What follows a packet; `rest` is the loop on what is left.
    follow : (Sessions H → Outcome) → Option (Step H) → Outcome
    unfolding before
    follow rest none = record { sent = []; ending = panicked }
    follow rest (some (closed t)) = record { sent = []; ending = bad_session }
    follow rest (some (served t r)) = before r.sent (rest t)

    -- What follows a read.
    round : (Sessions H → Bytes → Outcome) → Sessions H → Result (Arrival × Bytes) → Outcome
    unfolding handle_packet follow
    round loop s (err e) = record { sent = []; ending = read_failed }
    round loop s panic = record { sent = []; ending = panicked }
    round loop s (ok (refused out, rest)) = record { sent = out ∷ []; ending = read_failed }
    round loop s (ok (packet p, rest)) = follow (λ t. loop t rest) (handle_packet s p)

    unfoldable pub serve : ℕ → Sessions H → Bytes → Outcome
    unfolding round
    serve zero s stream = record { sent = []; ending = starved }
    serve (suc fuel) s stream = round (serve fuel) s (read md5 secret stream)

    -- The connection, from its first byte to its last.
    unfoldable pub serve_connection : Bytes → Outcome
    serve_connection stream = serve (length stream + 1) new_session_provider stream
