-- ===== src/Client.antt =====
-- client.go: `Client.Send`, on a connection that was dialled. What comes back on the connection is a
-- function of what was written to it.
pub mod Laws
use tacquito.Base.{Bytes, Option, Result, ok, err, panic, bad_secret_replied, ◌>>=◌}
use tacquito.Packet.{Packet}
use tacquito.Crypt.Connection.{Arrival, packet, refused, write, read}

-- `crypter.read`: a packet that was refused is an error, after its reply.
read_packet : Result (Arrival × Bytes) → Result Packet
read_packet (ok (packet p, rest)) = ok p
read_packet (ok (refused out, rest)) = err bad_secret_replied
read_packet (err e) = err e
read_packet panic = panic

module _ (md5 : Bytes → Bytes) where
  unfoldable pub send : Bytes → Option Packet → (Bytes → Bytes) → Result Packet
  unfolding read_packet
  send secret p network = do out ← write md5 secret p; read_packet (read md5 secret (network out))
