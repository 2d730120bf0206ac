-- ===== src/Handlers/Span.antt =====
-- span.go: the handler that copies the packets of a session to another host. Deadlines, counters
-- and the closing of the connection are left out.
pub mod Laws
pub mod Transparent
use tacquito.Base.{
  ℕ, ◌+◌, Bool, true, false, not, ◌&&◌, ◌||◌, ◌==◌, leb, if◌then◌else◌, [], ◌∷◌, Bytes, codes,
}
use tacquito.Base.{Option, none, some, Result, ok, err, panic, ◌>>=◌}
use tacquito.Base.{inactive_connection, switch_addr_mismatch, packet_type_mismatch}
use tacquito.Base.{client_ip_mismatch}
use tacquito.Base.{◌>>◌}
use tacquito.Config.{Options, option}
use tacquito.Text.{equals, is_empty}
use tacquito.Fields.Header.{authenticate, authorize, accounting}
use tacquito.Base.{take}
use tacquito.Header
use tacquito.Header.{max_header_length}
use tacquito.Packet.{Packet}
use tacquito.Packet
use tacquito.Server.Response.{Request}
use tacquito.Server.Serve.{Script, finish, call_register_writer}
use tacquito.Report.Maps.{FieldMap, field}
use tacquito.Report.Requests.{request_fields, request_of}

abbrev lower : ℕ → ℕ
lower a = if leb b'A' a && leb a b'Z' then a + 32 else a

-- `strings.ToLower`, for a text that is then compared with words of ASCII letters other than `k`. A
-- letter outside ASCII is left alone, but for U+0130, the only one whose lower case is such a letter.
unfoldable pub to_lower : Bytes → Bytes
to_lower [] = []
to_lower (a ∷ []) = lower a ∷ []
to_lower (a ∷ b ∷ s) = elim (a == 0xc4 && b == 0xb0) [
  | true ↦ b'i' ∷ to_lower s
  | false ↦ lower a ∷ to_lower (b ∷ s)
]

-- `strToHeaderType`.
unfoldable pub str_to_header_type : Bytes → ℕ
unfolding to_lower
str_to_header_type packet_type =
    if equals (to_lower packet_type) (codes "authenticate")
    then authenticate
    else if equals (to_lower packet_type) (codes "authorize")
    then authorize
    else if equals (to_lower packet_type) (codes "accounting")
    then accounting
    else 0

-- What the factory makes of its options.
pub record Span : Type 0 where
  pub destination : Bytes
  pub switch_addr : Bytes
  pub rem_addr : Bytes
  pub packet_type : ℕ

-- `Span.New`: nil without a destination. A missing option is empty.
unfoldable pub new_span : Options → Option Span
unfolding str_to_header_type
new_span options = elim (options (codes "destination")) [
  | none ↦ none
  | some destination ↦ some (record {
    destination = destination;
    switch_addr = option options (codes "switchAddr");
    rem_addr = option options (codes "remAddr");
    packet_type = str_to_header_type (option options (codes "packetType"));
  })
]

-- `writer`. The connection, to the span host, is its remote address, and none where it is nil.
pub record Writer : Type 0 where
  pub conn : Option Bytes
  pub switch_addr : Bytes
  pub rem_addr : Bytes
  pub packet_type : ℕ

-- The packet after `packet.UnmarshalBinary(p)`, whose error is not looked at: the header is set once
-- it is decoded, before its length is looked at, and is nil where it is not.
decoded : Bytes → Result Packet → Result Packet
decoded p (ok packet) = ok packet
decoded p (err e) = ok (record {
  header = elim (Header.unmarshal_binary (take max_header_length p)) [
    | ok h ↦ some h
    | err x ↦ none
    | panic ↦ none
  ];
  body = none;
})
decoded p panic = panic

-- Whether the field is there and another.
other_client : Bytes → Option FieldMap → Bool
other_client rem_addr none = false
other_client rem_addr (some fields) = elim (field fields (codes "rem-addr")) [
  | none ↦ false
  | some v ↦ not (equals v rem_addr)
]

check_packet_type : ℕ → Packet → Result (Unit {0})
check_packet_type packet_type p = if packet_type == 0 then ok tt else elim p.header [
  | none ↦ panic
  | some h ↦ if h.type == packet_type then ok tt else err packet_type_mismatch
]

check_client : Bytes → Packet → Result (Unit {0})
unfolding other_client
check_client rem_addr p = if is_empty rem_addr then ok tt else do
  req ← request_of p
  fields ← request_fields (λ key. none) [] req
  if other_client rem_addr fields then err client_ip_mismatch else ok tt

check_switch : Bytes → Bytes → Result (Unit {0})
check_switch switch_addr remote =
    if not (is_empty switch_addr) && not (equals remote switch_addr)
    then err switch_addr_mismatch
    else ok tt

-- `writer.Write` up to `w.Conn.Write(p)`: the bytes that the connection is given. `p` comes from
-- `MarshalBinary`, with no capacity to spare.
unfoldable pub span_write : Writer → Bytes → Result Bytes
unfolding check_switch decoded check_packet_type check_client
span_write w p = elim w.conn [
  | none ↦ err inactive_connection
  | some remote ↦ do
    check_switch w.switch_addr remote
    packet ← decoded p (Packet.unmarshal_binary (some p) [])
    check_packet_type w.packet_type packet
    check_client w.rem_addr packet
    ok p
]

unfoldable pub new_writer : Span → Bytes → Writer
new_writer s remote = record {
  conn = some remote;
  switch_addr = s.switch_addr;
  rem_addr = s.rem_addr;
  packet_type = s.packet_type;
}

-- The request as a packet again: `tq.Packet{Header: &request.Header, Body: request.Body[:]}`.
unfoldable pub request_bytes : Request → Result Bytes
request_bytes req =
    Packet.marshal_binary (record { header = some req.header; body = some req.body })

-- The copy of the request itself, which is written before the next handler runs; `dialled` is what
-- `net.Dial` gave for the destination, the remote address of a connection or none. It is none where
-- nothing is tried.
unfoldable pub span_request : Span → Option Bytes → Request → Option (Result Bytes)
span_request s none req = none
span_request s (some remote) req = elim (request_bytes req) [
  | ok bytes ↦ some (span_write (new_writer s remote) bytes)
  | err e ↦ none
  | panic ↦ some panic
]

-- `Span.Handle`; `next` is the start handler. A panic ends it.
unfoldable pub span_handle :
    {H : Type 0} → Span → Option Bytes → (Request → Script H) → Request → Script H
unfolding span_request
span_handle s dialled next req = elim (span_request s dialled req) [
  | none ↦ next req
  | some written ↦ elim written [
    | ok bytes ↦ call_register_writer (next req)
    | err e ↦ call_register_writer (next req)
    | panic ↦ finish
  ]
]
