-- ===== src/Packet/Codec.antt =====
-- `Packet.MarshalBinary` against `Packet.UnmarshalBinary`.
use tacquito.Base.{ℕ, ◌+◌, ◌≤◌, ◌≡◌, sym, arith, [], ◌++◌, append_assoc}
use tacquito.Base.{
  Bool-cases, inl, inr, ◌>>=◌, append-nil, length, take, drop, Bytes, some, ok, ok-injective,
  bind-eq-ok,
}
use tacquito.Base.{length-append, take-append, drop-append, le→ltb, ltb}
use tacquito.Header.{Header, max_body_length, max_header_length}
use tacquito.Header
use tacquito.Header.Codec.{
  IsTyped, received, validate-IsChecked, length-marshal, unmarshal-marshal_header as read_header,
  marshal-validate,
}
use tacquito.Packet.{Packet, marshal_binary, unmarshal_binary}

abbrev pub whole : Header → Bytes → Packet
whole h b = record { header = some h; body = some b }

-- The length check of `Packet.MarshalBinary` repeats one of `Header.Validate`.
pub marshal-parts :
    (h : Header) (b bytes : Bytes)
    → marshal_binary (whole h b) ≡ ok bytes
    → (head : Bytes) × (Header.marshal_binary h ≡ ok head) × (bytes ≡ head ++ b)
unfolding marshal_binary
marshal-parts h b bytes m = elim (Bool-cases (ltb max_body_length h.len)) [
  | inl long ↦ cc (rw long at m)
  | inr short ↦
      let m' : (Header.marshal_binary h >>= λ head. ok (head ++ b)) ≡ ok bytes = rw short at m in
      let (head, mh, e) = bind-eq-ok (Header.marshal_binary h) (λ head. ok (head ++ b)) m' in
      (head, mh, sym (ok-injective e))
]

pub take-prefix : (head t : Bytes) (n : ℕ) → length head ≡ n → take n (head ++ t) ≡ head
take-prefix head t n e = rw (← e) (take-append head t)

pub drop-prefix : (head t : Bytes) (n : ℕ) → length head ≡ n → drop n (head ++ t) ≡ t
drop-prefix head t n e = rw (← e) (drop-append head t)

unmarshal-parts :
    (h : Header) (head b tail v spare : Bytes)
    → IsTyped h
    → h.len ≡ length b
    → Header.marshal_binary h ≡ ok head
    → v ++ spare ≡ head ++ (b ++ tail)
    → unmarshal_binary (some v) spare ≡ ok (whole (received h) b)
unfolding unmarshal_binary
unmarshal-parts h head b tail v spare t same m cut =
    let c = validate-IsChecked h (marshal-validate h m) in
    let l = length-marshal h head m in
    let size = length-append head (b ++ tail) in
    let size' = length-append b tail in
    let decoded : Header.unmarshal_binary head ≡ ok (received h) =
      rw append-nil at (read_header h head [] m t) in
    rw (cut, le→ltb (length (head ++ (b ++ tail))) 12 (omega (arith, l, size)))
      (rw (take-prefix head (b ++ tail) 12 l, drop-prefix head (b ++ tail) 12 l, decoded)
        (rw (
          le→ltb max_body_length h.len c.len_le,
          le→ltb (length (head ++ (b ++ tail))) (12 + h.len) (omega (arith, l, size, size')),
          take-prefix b tail h.len (sym same),
        )))

-- A packet that says its body's length is read back from what `Packet.MarshalBinary` writes,
-- whatever bytes follow, in the slice or in its spare capacity; the header is as the header's
-- decoder gives it.
pub unmarshal-marshal_packet :
    (h : Header) (b bytes rest spare : Bytes)
    → IsTyped h
    → h.len ≡ length b
    → marshal_binary (whole h b) ≡ ok bytes
    → unmarshal_binary (some (bytes ++ rest)) spare ≡ ok (whole (received h) b)
unmarshal-marshal_packet h b bytes rest spare t same m =
    let (head, mh, e) = marshal-parts h b bytes m in
    unmarshal-parts h head b (rest ++ spare) (bytes ++ rest) spare t same mh
      (rw (e, append_assoc, append_assoc))

pub marshal-whole :
    (h : Header) (b head : Bytes)
    → h.len ≤ 65536
    → Header.marshal_binary h ≡ ok head
    → marshal_binary (whole h b) ≡ ok (head ++ b)
unfolding marshal_binary
marshal-whole h b head small m = rw (le→ltb max_body_length h.len small, m)
