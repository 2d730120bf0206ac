-- ===== src/Proxy.antt =====
-- proxy/readerwriter.go, and the line that `crypter.read` takes off in front of a packet. What `fmt`
-- prints of an address and of a port is a parameter.
pub mod Laws
use tacquito.Base.{
  ℕ, ◌+◌, ◌==◌, leb, ltb, Bool, true, false, not, ◌&&◌, ◌||◌, if◌then◌else◌, List, [], ◌∷◌, ◌++◌,
  length, Bytes, codes,
}
use tacquito.Base.{
  Option, none, some, Result, ok, err, ◌>>=◌, read_eof, header_string_malformed, unknown_network,
  short_buffer,
}
use tacquito.Text.{equals, is_empty}
use tacquito.Crypt.Connection.{Arrival, read}

abbrev pub starts_with : Bytes → Bytes → Bool
starts_with [] s = true
starts_with (a ∷ prefix) [] = false
starts_with (a ∷ prefix) (b ∷ s) = a == b && starts_with prefix s

-- `bytes.Contains`.
unfoldable pub contains : Bytes → Bytes → Bool
contains part [] = is_empty part
contains part (a ∷ s) = starts_with part (a ∷ s) || contains part s

-- `bytes.TrimSuffix`.
unfoldable pub trim_suffix : Bytes → Bytes → Bytes
trim_suffix suffix [] = []
trim_suffix suffix (a ∷ s) =
    let rest = trim_suffix suffix s in if equals (a ∷ s) suffix then [] else a ∷ rest

abbrev pub onto_first : ℕ → List Bytes → List Bytes
onto_first a [] = (a ∷ []) ∷ []
onto_first a (word ∷ words) = (a ∷ word) ∷ words

-- `strings.Split` at the bytes that equal one.
unfoldable pub split : ℕ → Bytes → List Bytes
split separator [] = [] ∷ []
split separator (a ∷ s) =
    let words = split separator s in if a == separator then [] ∷ words else onto_first a words

-- `strings.ToLower` on ASCII letters. No other letter becomes one of the letters
-- of a network.
unfoldable pub to_lower : Bytes → Bytes
to_lower [] = []
to_lower (a ∷ s) = (if leb 65 a && leb a 90 then a + 32 else a) ∷ to_lower s

-- `net.Addr`: one of package net's TCP addresses, whose IP may be nil, or an `addr`.
pub data Addr (Ip : Type 0) : Type 0 where
  tcp : Option Ip → ℕ → Addr Ip
  addr : Bytes → Bytes → Bytes → Addr Ip

-- `Header` of package proxy.
pub record ProxyHeader (Ip : Type 0) : Type 0 where
  pub client : Addr Ip
  pub remote : Addr Ip

abbrev pub line_end : Bytes
line_end = 13 ∷ 10 ∷ 0 ∷ []

abbrev pub is_network : Bytes → Bool
is_network network =
    equals network (codes "tcp") || equals network (codes "tcp6") || equals network (codes "tcp4")

module _ {Ip : Type 0} where
  -- `getIPPort`, with the IP alone; the port is zero for an address that has no IP.
  abbrev pub get_ip_port : Addr Ip → Option (Ip × ℕ)
  get_ip_port (tcp none port) = none
  get_ip_port (tcp (some ip) port) = some (ip, port)
  get_ip_port (addr network address port) = none

  write_chunks : List Bytes → Result (ProxyHeader Ip)
  write_chunks (proxy ∷ network ∷ client ∷ remote ∷ client_port ∷ remote_port ∷ []) =
      if is_network (to_lower network)
      then ok (record {
        client = addr (to_lower network) client client_port;
        remote = addr (to_lower network) remote remote_port;
      })
      else err unknown_network
  write_chunks _ = err header_string_malformed

  -- `Header.Write`.
  unfoldable pub write_line : Bytes → Result (ProxyHeader Ip)
  unfolding write_chunks
  write_line b =
      if not (contains (codes "PROXY") b)
      then err header_string_malformed
      else write_chunks (split 32 (trim_suffix line_end b))

  module _ (print_ip : Ip → Bytes) (print_port : ℕ → Bytes) where
    -- The network of a TCP address is TCP.
    abbrev pub line_of : Ip × ℕ → Ip × ℕ → Bytes
    line_of client remote =
        codes "PROXY "
        ++ (codes "TCP "
            ++ ((print_ip client.0 ++ (32 ∷ []))
                ++ ((print_ip remote.0 ++ (32 ∷ []))
                    ++ ((print_port client.1 ++ (32 ∷ [])) ++ print_port remote.1))))

    -- `Header.proxyHeader`: empty if an address has no IP.
    unfoldable pub proxy_header : ProxyHeader Ip → Bytes
    proxy_header h = elim (get_ip_port h.client) [
      | none ↦ []
      | some client ↦ elim (get_ip_port h.remote) [
        | none ↦ []
        | some remote ↦ line_of client remote ++ line_end
      ]
    ]

    -- `Header.Read`, into a buffer of a length.
    unfoldable pub read_line : ProxyHeader Ip → ℕ → Result Bytes
    read_line h n =
        if ltb n (length (proxy_header h)) then err short_buffer else ok (proxy_header h)

-- `ReadBytes`: up to the first byte that equals one, with it.
unfoldable pub read_bytes : ℕ → Bytes → Option (Bytes × Bytes)
read_bytes delimiter [] = none
read_bytes delimiter (a ∷ s) =
    let later = read_bytes delimiter s in
    if a == delimiter
    then some (a ∷ [], s)
    else elim later [ none ↦ none | some found ↦ some (a ∷ found.0, found.1) ]

-- `crypter.read` of a connection behind a proxy: a line stands in front of each packet.
module _ (Ip : Type 0) (md5 : Bytes → Bytes) (secret : Bytes) where
  unfoldable pub read_behind_proxy : Bytes → Result (Arrival × Bytes)
  read_behind_proxy s = elim (read_bytes 0 s) [
    | none ↦ err read_eof
    | some found ↦ do h ← write_line {Ip = Ip} found.0; read md5 secret found.1
  ]
