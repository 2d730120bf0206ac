-- ===== src/Crypt/Connection.antt =====
-- crypt.go: `crypter.read` and `crypter.write` on a connection without the proxy line. The bytes
-- that arrive until the end of the stream are a list; a write gives the bytes that go out. The
-- counters of prometheus are left out.
pub mod RoundTrip
pub mod Progress
use tacquito.Base.{
  ℕ, zero, suc, ◌+◌, ◌%◌, ◌^◌, List, [], ◌∷◌, ◌++◌, length, take, drop, get_or, ltb,
}
use tacquito.Base.{if◌then◌else◌, ◌==◌, Bytes, Option, none, some, Result, ok, err, panic, ◌>>=◌}
use tacquito.Base.{nil_packet, nil_body, read_eof, read_unexpected_eof, max_length_exceeded}
use tacquito.Base.{bad_secret_replied}
use tacquito.Fields.Header.{uint32}
use tacquito.Header.{Header, max_body_length, max_header_length}
use tacquito.Packet.{Packet, with_length}
use tacquito.Packet
use tacquito.Crypt.{crypt}
use tacquito.Crypt.BadSecret.{detect_bad_secret}

-- `io.ReadFull` into a buffer of `n` bytes: what was read, and what is left.
unfoldable pub read_full : ℕ → Bytes → Result (Bytes × Bytes)
read_full n s =
    if ltb (length s) n
    then err (if length s == 0 then read_eof else read_unexpected_eof)
    else ok (take n s, drop n s)

-- The length field of a header.
abbrev pub announced : Bytes → ℕ
announced h = uint32 (get_or h 8 0) (get_or h 9 0) (get_or h 10 0) (get_or h 11 0)

-- The packet that was read, or the reply that goes out before the read fails.
pub data Arrival : Type 0 where
  packet : Packet → Arrival
  refused : Bytes → Arrival

module _ (md5 : Bytes → Bytes) where
  -- `p.Header.Length = uint32(len(p.Body))`, then the body is encrypted in place and the packet
  -- marshalled.
  write_parts : Bytes → Option Header → Option Bytes → Result Bytes
  write_parts secret header none = err nil_body
  write_parts secret none (some b) = panic
  write_parts secret (some h) (some b) = do
    p ← crypt md5 secret (record { header = some (with_length b h); body = some b })
    Packet.marshal_binary p

  unfoldable pub write : Bytes → Option Packet → Result Bytes
  unfolding write_parts
  write secret none = err nil_packet
  write secret (some p) = write_parts secret p.header p.body

  answer : Bytes → Packet → Option Packet → Result Arrival
  answer secret p none = ok (packet p)
  answer secret p (some r) = do out ← write secret (some r); ok (refused out)

  -- After `crypt`: a packet with a bad secret is answered on the spot.
  inspect : Bytes → Packet → Option Header → Option Bytes → Result Arrival
  unfolding answer
  inspect secret p none b = panic
  inspect secret p (some h) none = panic
  inspect secret p (some h) (some b) = do reply ← detect_bad_secret h b; answer secret p reply

  unfoldable pub read : Bytes → Bytes → Result (Arrival × Bytes)
  unfolding inspect
  read secret s = do
    (h, s1) ← read_full max_header_length s
    if ltb max_body_length (announced h) then err max_length_exceeded else do
      (b, s2) ← read_full (announced h) s1
      p ← Packet.unmarshal_binary (some (h ++ b)) []
      q ← crypt md5 secret p
      arrival ← inspect secret q q.header q.body
      ok (arrival, s2)
