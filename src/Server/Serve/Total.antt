-- ===== src/Server/Serve/Total.antt =====
-- The loop of `handle` ends: each round reads a header's worth of bytes at least.
use tacquito.Base.{ℕ, zero, suc, ◌+◌, ◌<◌, ◌≡◌, ◌≢◌, refl, arith, length, Bytes}
use tacquito.Base.{Option, none, some, Result, ok, err, panic}
use tacquito.Crypt.Connection.{Arrival, packet, refused, read}
use tacquito.Crypt.Connection.Progress.{read-progress}
use tacquito.Server.Sessions.{Sessions, new_session_provider}
use tacquito.Server.Response.{Request}
use tacquito.Server.Serve.{Script, Step, closed, served, Outcome, starved}
use tacquito.Server.Serve.{handle_packet, before, follow, round, serve, serve_connection}

module _ {H : Type 0} (md5 : Bytes → Bytes) (secret : Bytes) (handle : H → Request → Script H)
    (entry : H) where
  follow-ends :
      (rest : Sessions H → Outcome) (step : Option (Step H))
      → ((t : Sessions H) → (rest t).ending ≢ starved)
      → (follow md5 secret handle entry rest step).ending ≢ starved
  unfolding follow before
  follow-ends rest none ends = λ e. cc
  follow-ends rest (some (closed t)) ends = λ e. cc
  follow-ends rest (some (served t r)) ends = ends t

  round-ends :
      (loop : Sessions H → Bytes → Outcome) (s : Sessions H) (out : Result (Arrival × Bytes))
      → ((a : Arrival) (rest : Bytes)
          → out ≡ ok (a, rest)
          → (t : Sessions H) → (loop t rest).ending ≢ starved)
      → (round md5 secret handle entry loop s out).ending ≢ starved
  unfolding round
  round-ends loop s (ok (packet p, rest)) ends =
      follow-ends (λ t. loop t rest) (handle_packet md5 secret handle entry s p)
        (ends (packet p) rest refl)
  round-ends loop s (ok (refused out, rest)) ends = λ e. cc
  round-ends loop s (err x) ends = λ e. cc
  round-ends loop s panic ends = λ e. cc

  serve-ends :
      (fuel : ℕ) (s : Sessions H) (stream : Bytes)
      → length stream < fuel
      → (serve md5 secret handle entry fuel s stream).ending ≢ starved
  unfolding serve
  serve-ends zero s stream enough = absurd (omega arith)
  serve-ends (suc fuel) s stream enough =
      round-ends (serve md5 secret handle entry fuel) s (read md5 secret stream) (λ a rest e t.
        serve-ends fuel t rest (omega (arith, enough, read-progress md5 secret stream rest a e)))

  -- One round for each byte of the stream and one more are enough for the loop of `handle`: on
  -- every stream it is left because a read failed, a session was refused or the code panicked, and
  -- never for want of rounds.
  pub serve_connection-ends :
      (stream : Bytes) → (serve_connection md5 secret handle entry stream).ending ≢ starved
  unfolding serve_connection
  serve_connection-ends stream =
      serve-ends (length stream + 1) new_session_provider stream (omega arith)
