-- ===== src/Server/Accept.antt =====
-- server.go: `Serve`, the loop that accepts connections. What the listener gives, turn after turn, is a
-- list, which is over when the context is done. Each connection is served with sessions of its own.
pub mod Laws
use tacquito.Base.{
  Bool, true, false, if◌then◌else◌, List, [], ◌∷◌, Bytes, Option, none, some, Error,
}
use tacquito.Loader.{known}
use tacquito.Server.Response.{Request}
use tacquito.Server.Serve.{Script, Outcome, serve_connection}
use tacquito.Server.Serve.Proxied.{serve_proxied_connection}

-- What `listener.Accept` gives: a `net.OpError`, which is temporary or not, any other error, or a
-- connection, with its remote address and all that its client sends.
pub data Accepted (Addr : Type 0) : Type 0 where
  operation_error : Bool → Accepted Addr
  other_error : Accepted Addr
  connection : Addr → Bytes → Accepted Addr

-- What becomes of a connection.
pub data Service : Type 0 where
  ignored : Service
  handled : Outcome → Service

-- `get` is the secret provider's `Get`.
module _ {Addr H : Type 0} (Ip : Type 0) (md5 : Bytes → Bytes)
    (get : Addr → Option Bytes × Option H × Option Error) (handle : H → Request → Script H)
    (proxy : Bool) where
  -- `s.handle(ctx, newCrypter(secret, conn, s.proxy), handler)`.
  unfoldable pub serve_one : Option (Bytes × H) → Bytes → Service
  serve_one none stream = ignored
  serve_one (some found) stream = handled (
      if proxy
      then serve_proxied_connection Ip md5 found.0 handle found.1 stream
      else serve_connection md5 found.0 handle found.1 stream)

  unfoldable pub serve_all : List (Accepted Addr) → List Service
  unfolding serve_one
  serve_all [] = []
  serve_all (operation_error temporary ∷ turns) =
      let rest = serve_all turns in if temporary then rest else []
  serve_all (other_error ∷ turns) = serve_all turns
  serve_all (connection remote stream ∷ turns) =
      serve_one (known (get remote)) stream ∷ serve_all turns
