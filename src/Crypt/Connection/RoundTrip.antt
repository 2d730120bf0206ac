-- ===== src/Crypt/Connection/RoundTrip.antt =====
-- What one end writes, the other reads, if both have the secret.
use tacquito.Base.{ℕ, ◌+◌, ◌^◌, ◌<◌, ◌≡◌, sym, ◌∙◌, arith, [], ◌∷◌, ◌++◌}
use tacquito.Base.{
  append-nil, append_assoc, length, length-append, ok-injective, Bytes, none, some, ok,
}
use tacquito.Base.{Bool-cases, inl, inr, le→ltb, ◌==◌}
use tacquito.Base.Bits.{bit_and-one, bit_and_or_four}
use tacquito.Fields.Header.{flag_has, flag_set, unencrypted_flag, put_uint32}
use tacquito.Header.{Header, validate, max_body_length}
use tacquito.Header
use tacquito.Header.Codec.{
  IsTyped, received, validate-IsChecked, marshal_lem, marshal_version_lem, length-marshal,
  uint32-put_uint32,
}
use tacquito.Packet.{with_length}
use tacquito.Packet.Codec.{whole, unmarshal-marshal_packet, marshal-whole, take-prefix, drop-prefix}
use tacquito.Crypt.{crypt}
use tacquito.Crypt.Involution.{crypt_twice}
use tacquito.Crypt.BadSecret.{detect_bad_secret}
use tacquito.Crypt.BadSecret.Decodes.{Decodes, all_report-Decodes}
use tacquito.Crypt.Connection.{read_full, announced, write, read, packet}

read_full-append : (n : ℕ) (x rest : Bytes) → length x ≡ n → read_full n (x ++ rest) ≡ ok (x, rest)
unfolding read_full
read_full-append n x rest e = rw (
  le→ltb (length (x ++ rest)) n (omega (arith, length-append x rest)),
  take-prefix x rest n e,
  drop-prefix x rest n e,
)

-- Bit 0 is what it was after the single connect flag is set.
received_plain :
    (h : Header)
    → h.flags < 256
    → flag_has (received h).flags unencrypted_flag ≡ flag_has h.flags unencrypted_flag
unfolding flag_has flag_set
received_plain h small = elim (Bool-cases (h.seq_no == 2)) [
  | inl two ↦ rw (two, bit_and_or_four h.flags small, bit_and-one h.flags small)
  | inr other ↦ rw other
]

announced_lem :
    (h : Header) (head : Bytes)
    → validate h ≡ ok tt
    → Header.marshal_binary h ≡ ok head
    → announced head ≡ h.len
unfolding put_uint32
announced_lem h head v m =
    rw (← (ok-injective (sym (marshal_lem h v) ∙ m)))
      (uint32-put_uint32 h.len (omega (arith, (validate-IsChecked h v).len_le)))

detect_bad_secret-Decodes :
    (h : Header) (b : Bytes) → Decodes b h.type → detect_bad_secret h b ≡ ok none
unfolding detect_bad_secret
detect_bad_secret-Decodes h b d = ground (arith, all_report-Decodes b d)

module _ (md5 : Bytes → Bytes) (md5_size : (x : Bytes) → length (md5 x) ≡ 16) where
  -- Reading what stands for a packet on the wire: the marshalled header and the obfuscated body.
  read_wire :
      (secret : Bytes) (h : Header) (b c head rest : Bytes)
      → validate h ≡ ok tt
      → IsTyped h
      → h.len ≡ length c
      → Header.marshal_binary h ≡ ok head
      → crypt md5 secret (whole (received h) c) ≡ ok (whole (received h) b)
      → Decodes b h.type
      → read md5 secret ((head ++ c) ++ rest) ≡ ok (packet (whole (received h) b), rest)
  unfolding read
  read_wire secret h b c head rest v t size m back d =
      let checks = validate-IsChecked h v in
      let whole_packet = marshal-whole h c head checks.len_le m in
      let decoded = unmarshal-marshal_packet h c (head ++ c) [] [] t size whole_packet in
      rw (append_assoc head c rest, read_full-append 12 head (c ++ rest) (length-marshal h head m))
        (rw (announced_lem h head v m, le→ltb max_body_length h.len checks.len_le)
          (rw (read_full-append h.len c rest (sym size)) (
            rw (rw append-nil at decoded)
              (rw back (rw (detect_bad_secret-Decodes (received h) b d))))))

  -- A packet with a valid header, whose body decodes as a packet of the header's type, can be
  -- written, and the other end, with the same secret, reads it back with the length filled in, the
  -- flags as the header's decoder sets them, and leaves what follows in the stream.
  pub read-write :
      (secret : Bytes) (h : Header) (b rest : Bytes)
      → length b < 2 ^ 32
      → validate (with_length b h) ≡ ok tt
      → IsTyped h
      → Decodes b h.type
      → (out : Bytes) × (write md5 secret (some (whole h b)) ≡ ok out)
        × (read md5 secret (out ++ rest) ≡ ok (packet (whole (received (with_length b h)) b), rest))
  unfolding write
  read-write secret h b rest small v t d =
      let h1 = with_length b h in
      let size : h1.len ≡ length b = omega arith in
      let t1 : IsTyped h1 = record {
        flags_byte = t.flags_byte;
        session_id_word = t.session_id_word;
      } in
      let checks = validate-IsChecked h1 v in
      let version = marshal_version_lem h.version checks.major_is checks.minor_le in
      let (c, there, same, back) =
        crypt_twice md5 md5_size secret h1 (received h1).flags b _ version (omega arith)
          (received_plain h1 t.flags_byte) in
      let head : Bytes =
        (192 + h.version.minor)
        ∷ h.type
        ∷ h.seq_no
        ∷ h.flags
        ∷ (put_uint32 h.session_id ++ put_uint32 h1.len) in
      let m : Header.marshal_binary h1 ≡ ok head = marshal_lem h1 v in
      (
        head ++ c,
        rw there (marshal-whole h1 c head checks.len_le m),
        read_wire secret h1 b c head rest v t1 (omega arith) m back d,
      )
