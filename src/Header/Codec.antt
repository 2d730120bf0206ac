-- ===== src/Header/Codec.antt =====
-- `Header.MarshalBinary` against `Header.UnmarshalBinary`.
use tacquito.Base.{ℕ, ◌+◌, ◌/◌, ◌%◌, ◌^◌, ◌≤◌, ◌<◌, ◌≡◌, refl, sym, ap, ◌∙◌, arith}
use tacquito.Base.{append-nil, [], ◌∷◌, ◌++◌, length, Bytes, IsBytes, bit_or, bit_and}
use tacquito.Base.{◌>>◌, ok, ok-injective, bind-eq-ok, le→ltb, ltb, ◌==◌, if◌then◌else◌, false}
use tacquito.Base.Bits.{bit_or_shifted, bit_and-fifteen}
use tacquito.Fields.{validate_all}
use tacquito.Fields.Header.{Version, validate_version, marshal_version, unmarshal_version}
use tacquito.Fields.Header.{validate_header_type, validate_sequence_number, put_uint32, uint32}
use tacquito.Fields.Header.{flag_set, single_connect}
use tacquito.Header.{Header, validate, marshal_binary, unmarshal_binary}

-- The bounds that the types `HeaderFlag`, `SessionID` and `uint32` give the fields.
pub record IsTyped (h : Header) : Type 0 where
  pub flags_byte : h.flags < 256
  pub session_id_word : h.session_id < 2 ^ 32

-- The header that the decoder makes of `h`.
abbrev pub received : Header → Header
received h = record h { flags = if h.seq_no == 2 then flag_set h.flags single_connect else h.flags }

pub uint32-put_uint32 :
    (n : ℕ)
    → n < 2 ^ 32
    → uint32 (n / 2 ^ 24 % 256) (n / 2 ^ 16 % 256) (n / 2 ^ 8 % 256) (n % 256) ≡ n
unfolding uint32
uint32-put_uint32 n h = omega arith

pub put_uint32-uint32 :
    (a b c d : ℕ) → IsBytes (a ∷ b ∷ c ∷ d ∷ []) → put_uint32 (uint32 a b c d) ≡ a ∷ b ∷ c ∷ d ∷ []
unfolding uint32 put_uint32
put_uint32-uint32 a b c d h = ground arith

-- What the checks say of the fields.
pub record IsChecked (h : Header) : Type 0 where
  pub major_is : h.version.major ≡ 0xc
  pub minor_le : h.version.minor ≤ 1
  pub seq_no_pos : 1 ≤ h.seq_no
  pub seq_no_le : h.seq_no ≤ 255
  pub len_le : h.len ≤ 65536

pub validate-IsChecked : (h : Header) → validate h ≡ ok tt → IsChecked h
unfolding validate validate_all validate_version validate_sequence_number validate_header_type
validate-IsChecked h v = ground arith

pub marshal_version_lem :
    (v : Version) → v.major ≡ 0xc → v.minor ≤ 1 → marshal_version v ≡ ok ((192 + v.minor) ∷ [])
unfolding marshal_version validate_version
marshal_version_lem v h k = rw h (ground (arith, bit_or_shifted 4 12 v.minor (omega arith)))

unmarshal_version_lem :
    (v : Version) (rest : Bytes)
    → v.major ≡ 0xc
    → v.minor ≤ 1
    → unmarshal_version ((192 + v.minor) ∷ rest) ≡ v
unfolding unmarshal_version
unmarshal_version_lem v rest h k = ground (arith, bit_and-fifteen (192 + v.minor) (omega arith))

pub marshal-validate :
    (h : Header) {bytes : Bytes} → marshal_binary h ≡ ok bytes → validate h ≡ ok tt
unfolding marshal_binary
marshal-validate h m = (bind-eq-ok (validate h) _ m).1

pub marshal_lem :
    (h : Header)
    → validate h ≡ ok tt
    → marshal_binary h
      ≡ ok (
          (192 + h.version.minor)
          ∷ h.type
          ∷ h.seq_no
          ∷ h.flags
          ∷ (put_uint32 h.session_id ++ put_uint32 h.len))
unfolding marshal_binary
marshal_lem h v =
    let c = validate-IsChecked h v in
    rw (v, marshal_version_lem h.version c.major_is c.minor_le)
      (ap
        (λ (n : ℕ). ok (
          (192 + h.version.minor)
          ∷ h.type
          ∷ n
          ∷ h.flags
          ∷ (put_uint32 h.session_id ++ put_uint32 h.len)))
        (omega arith))

-- The checks do not read the flags.
validate_flags : (h : Header) (f : ℕ) → validate (record h { flags = f }) ≡ validate h
unfolding validate
validate_flags h f = refl

abbrev layout : Header → Bytes → Bytes
layout h rest =
    (192 + h.version.minor)
    ∷ h.type
    ∷ h.seq_no
    ∷ h.flags
    ∷ (put_uint32 h.session_id ++ put_uint32 h.len ++ rest)

unmarshal-layout :
    (h : Header) (rest : Bytes)
    → validate h ≡ ok tt
    → IsTyped h
    → unmarshal_binary (layout h rest) ≡ ok (received h)
unfolding unmarshal_binary put_uint32
unmarshal-layout h rest v t =
    let c = validate-IsChecked h v in
    let valid : validate (received h) ≡ ok tt = validate_flags h _ ∙ v in
    rw
      (
        le→ltb (length (layout h rest)) 12 (omega arith),
        unmarshal_version_lem h.version _ c.major_is c.minor_le,
        uint32-put_uint32 h.session_id t.session_id_word,
        uint32-put_uint32 h.len (omega arith),
      )
      (rw valid)

-- What `Header.MarshalBinary` writes, `Header.UnmarshalBinary` reads back, whatever bytes follow.
-- Only the flags may differ: at sequence number 2 the decoder sets the single connect flag.
pub unmarshal-marshal_header :
    (h : Header) (bytes rest : Bytes)
    → marshal_binary h ≡ ok bytes
    → IsTyped h
    → unmarshal_binary (bytes ++ rest) ≡ ok (received h)
unfolding put_uint32
unmarshal-marshal_header h bytes rest m t =
    let v = marshal-validate h m in
    let same : ok (layout h []) ≡ ok bytes = rw append-nil (sym (marshal_lem h v) ∙ m) in
    rw (← (ok-injective same)) (unmarshal-layout h rest v t)

abbrev decoded : (b0 b1 b2 b3 b4 b5 b6 b7 b8 b9 b10 b11 : ℕ) → Header
decoded b0 b1 b2 b3 b4 b5 b6 b7 b8 b9 b10 b11 = record {
  version = record { major = b0 / 2 ^ 4; minor = bit_and b0 0xf };
  type = b1;
  seq_no = b2;
  session_id = uint32 b4 b5 b6 b7;
  flags = if b2 == 2 then flag_set b3 single_connect else b3;
  len = uint32 b8 b9 b10 b11;
}

decoded-marshal :
    (b0 b1 b2 b3 b4 b5 b6 b7 b8 b9 b10 b11 : ℕ)
    → IsBytes (b0 ∷ b4 ∷ b5 ∷ b6 ∷ b7 ∷ b8 ∷ b9 ∷ b10 ∷ b11 ∷ [])
    → validate (decoded b0 b1 b2 b3 b4 b5 b6 b7 b8 b9 b10 b11) ≡ ok tt
    → marshal_binary (decoded b0 b1 b2 b3 b4 b5 b6 b7 b8 b9 b10 b11)
      ≡ ok (
          b0
          ∷ b1
          ∷ b2
          ∷ (if b2 == 2 then flag_set b3 single_connect else b3)
          ∷ b4
          ∷ b5
          ∷ b6
          ∷ b7
          ∷ b8
          ∷ b9
          ∷ b10
          ∷ b11
          ∷ [])
decoded-marshal b0 b1 b2 b3 b4 b5 b6 b7 b8 b9 b10 b11 small v =
    let d = decoded b0 b1 b2 b3 b4 b5 b6 b7 b8 b9 b10 b11 in
    let c = validate-IsChecked d v in
    let top : 192 + bit_and b0 0xf ≡ b0 = omega (arith, c.major_is, bit_and-fifteen b0 small.0) in
    marshal_lem d v
    ∙ rw (
      top,
      put_uint32-uint32 b4 b5 b6 b7 (omega (arith, small)),
      put_uint32-uint32 b8 b9 b10 b11 (omega (arith, small)),
    )

-- Twelve bytes or more that decode are, but for the flags byte, what `Header.MarshalBinary` writes
-- for the header they decode to; the flags byte is the header's unless the sequence number is 2,
-- where the single connect flag has been added.
pub marshal-unmarshal_header :
    (b0 b1 b2 b3 b4 b5 b6 b7 b8 b9 b10 b11 : ℕ) (rest : Bytes) (h : Header)
    → IsBytes (b0 ∷ b1 ∷ b2 ∷ b3 ∷ b4 ∷ b5 ∷ b6 ∷ b7 ∷ b8 ∷ b9 ∷ b10 ∷ b11 ∷ rest)
    → unmarshal_binary (b0 ∷ b1 ∷ b2 ∷ b3 ∷ b4 ∷ b5 ∷ b6 ∷ b7 ∷ b8 ∷ b9 ∷ b10 ∷ b11 ∷ rest) ≡ ok h
    → (marshal_binary h
        ≡ ok (b0 ∷ b1 ∷ b2 ∷ h.flags ∷ b4 ∷ b5 ∷ b6 ∷ b7 ∷ b8 ∷ b9 ∷ b10 ∷ b11 ∷ []))
      × (h.flags ≡ (if b2 == 2 then bit_or b3 4 else b3))
unfolding unmarshal_binary flag_set unmarshal_version
marshal-unmarshal_header b0 b1 b2 b3 b4 b5 b6 b7 b8 b9 b10 b11 rest h small e =
    let d = decoded b0 b1 b2 b3 b4 b5 b6 b7 b8 b9 b10 b11 in
    let long : ltb (length (b0 ∷ b1 ∷ b2 ∷ b3 ∷ b4 ∷ b5 ∷ b6 ∷ b7 ∷ b8 ∷ b9 ∷ b10 ∷ b11 ∷ rest)) 12
        ≡ false =
      le→ltb _ 12 (omega arith) in
    let e' : (validate d >> ok d) ≡ ok h = rw long at e in
    let (u, valid, same) = bind-eq-ok (validate d) (λ _. ok d) e' in
    let written =
      decoded-marshal b0 b1 b2 b3 b4 b5 b6 b7 b8 b9 b10 b11 (omega (arith, small)) valid in
    rw (← (ok-injective same)) (written, refl)

pub length-marshal : (h : Header) (bytes : Bytes) → marshal_binary h ≡ ok bytes → length bytes ≡ 12
unfolding put_uint32
length-marshal h bytes m =
    ap (λ (t : Bytes). length t)
      (sym (ok-injective (sym (marshal_lem h (marshal-validate h m)) ∙ m)))
