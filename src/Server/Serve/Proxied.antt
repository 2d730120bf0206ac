-- ===== src/Server/Serve/Proxied.antt =====
-- server.go: the loop of `handle` over a connection behind a proxy, whose reads take a line off first.
pub mod Laws
use tacquito.Base.{ℕ, zero, suc, ◌+◌, [], length, Bytes}
use tacquito.Server.Sessions.{Sessions, new_session_provider}
use tacquito.Server.Response.{Request}
use tacquito.Server.Serve.{Script, Outcome, starved, round}
use tacquito.Proxy.{read_behind_proxy}

module _ {H : Type 0} (Ip : Type 0) (md5 : Bytes → Bytes) (secret : Bytes)
    (handle : H → Request → Script H) (entry : H) where
  unfoldable pub serve_proxied : ℕ → Sessions H → Bytes → Outcome
  unfolding round
  serve_proxied zero s stream = record { sent = []; ending = starved }
  serve_proxied (suc fuel) s stream =
      round md5 secret handle entry (serve_proxied fuel) s (read_behind_proxy Ip md5 secret stream)

  unfoldable pub serve_proxied_connection : Bytes → Outcome
  unfolding serve_proxied
  serve_proxied_connection stream = serve_proxied (length stream + 1) new_session_provider stream
