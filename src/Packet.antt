-- ===== src/Packet.antt =====
-- packet.go: `Packet`, its options and its codec. A nil pointer or slice is `none`.
pub mod Codec
use tacquito.Base.{
  ℕ, ◌+◌, ◌%◌, ◌^◌, List, [], ◌∷◌, ◌++◌, length, take, drop, ltb, if◌then◌else◌, Bytes,
}
use tacquito.Base.{Option, none, some, Result, ok, err, panic, ◌>>=◌, apply_options}
use tacquito.Base.{nil_header, nil_body, nil_slice, length_too_large}
use tacquito.Header.{Header, max_body_length, max_header_length}
use tacquito.Header

pub record Packet : Type 0 where
  pub header : Option Header
  pub body : Option Bytes

abbrev pub set_packet_header : Header → Packet → Packet
set_packet_header v p = record p { header = some v }

-- `uint32(len(v))`.
abbrev pub with_length : Bytes → Header → Header
with_length v h = record h { len = length v % 2 ^ 32 }

abbrev pub map_header : (Header → Header) → Option Header → Option Header
map_header f none = none
map_header f (some h) = some (f h)

abbrev pub set_packet_body : Bytes → Packet → Packet
set_packet_body v p = record { header = map_header (with_length v) p.header; body = some v }

-- `SetPacketBodyUnsafe`, of what `MarshalBinary` gave; an error is a panic.
abbrev pub set_packet_body_unsafe : Result Bytes → Packet → Result Packet
set_packet_body_unsafe (ok b) p = ok (set_packet_body b p)
set_packet_body_unsafe (err e) p = panic
set_packet_body_unsafe panic p = panic

abbrev pub new_packet : List (Packet → Packet) → Packet
new_packet opts = apply_options opts (record { header = none; body = none })

marshal_parts : Option Header → Option Bytes → Result Bytes
marshal_parts none b = err nil_header
marshal_parts (some h) none = err nil_body
marshal_parts (some h) (some b) =
    if ltb max_body_length h.len
    then err length_too_large
    else do head ← Header.marshal_binary h; ok (head ++ b)

unfoldable pub marshal_binary : Packet → Result Bytes
unfolding marshal_parts
marshal_binary p = marshal_parts p.header p.body

-- `v` is a slice with the bytes `spare` behind it up to its capacity, which slicing may reach.
unfoldable pub unmarshal_binary : Option Bytes → Bytes → Result Packet
unmarshal_binary none spare = err nil_slice
unmarshal_binary (some v) spare =
    let all = v ++ spare in
    if ltb (length all) max_header_length then panic else do
      h ← Header.unmarshal_binary (take max_header_length all)
      if ltb max_body_length h.len
          then err length_too_large
          else if ltb (length all) (max_header_length + h.len)
          then panic
          else ok
              (record { header = some h; body = some (take h.len (drop max_header_length all)) })
