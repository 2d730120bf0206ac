-- ===== src/Acct/Reply/Codec.antt =====
-- `AcctReply.MarshalBinary` against `AcctReply.UnmarshalBinary`.
use tacquito.Base.{ℕ, ◌+◌, ◌*◌, ◌/◌, ◌%◌, ◌≤◌, ◌<◌, ◌≡◌, ◌↔◌, refl, sym, ap, arith}
use tacquito.Base.{
  List, [], ◌∷◌, ◌++◌, append_assoc, append-nil, length, get_or, Bytes, IsByte, IsBytes,
}
use tacquito.Base.{ok, err, bad_secret, ok-injective, bind-eq-ok, le→ltb, ==→eq, ==_refl, ◌==◌}
use tacquito.Fields.Checks.{NoBadSecret, validate_all-NoBadSecret, require-NoBadSecret}
use tacquito.Fields.Acct.{validate_acct_reply_status, validate_acct_server_msg, validate_acct_data}
use tacquito.Wire.{read_byte, read_args, args_len, arg_bytes}
use tacquito.Wire.Laws.{read_string-append, read_uint16-append, read_uint16_lem, lengths}
use tacquito.Wire.Sound.{sum, add_two, lengths-read_args, read_args-split}
use tacquito.Wire.Decoded.{checked, checked-eq-ok, checked-eq-bad_secret_iff, whole_false_iff}
use tacquito.Wire.Decoded.{FitsWords, word_bytes}
use tacquito.Acct.Reply.{AcctReply, validate, marshal_binary, unmarshal_binary}

abbrev pub Fits : AcctReply → Type 0
Fits a = FitsWords a.server_msg a.content

-- A length as its two bytes.
abbrev word : ℕ → Bytes → Bytes
word n rest = n / 256 % 256 ∷ n % 256 ∷ rest

abbrev encoding : AcctReply → Bytes
encoding a =
    word (length a.server_msg) (word (length a.content) (a.status ∷ (a.server_msg ++ a.content)))

unmarshal-encoding :
    (a : AcctReply) (rest : Bytes)
    → validate a ≡ ok tt
    → Fits a
    → unmarshal_binary (encoding a ++ rest) ≡ ok a
unfolding unmarshal_binary read_byte
unmarshal-encoding a rest v f =
    rw
      (
        le→ltb (length (encoding a ++ rest)) 5 (omega arith),
        read_uint16-append (length a.server_msg) _ f.first_fits,
        read_uint16-append (length a.content) _ f.second_fits,
      )
      (simp (append_assoc, read_string-append, ==_refl) (rw v))

-- What `AcctReply.MarshalBinary` writes for a packet whose texts fit,
-- `AcctReply.UnmarshalBinary` reads back as that packet, whatever bytes follow.
pub unmarshal-marshal_acct_reply :
    (a : AcctReply) (bytes rest : Bytes)
    → marshal_binary a ≡ ok bytes
    → Fits a
    → unmarshal_binary (bytes ++ rest) ≡ ok a
unfolding marshal_binary
unmarshal-marshal_acct_reply a bytes rest m f =
    let (u, v, w) = bind-eq-ok (validate a) _ m in
    rw (← (ok-injective w)) (unmarshal-encoding a rest v f)

-- The packet that a long enough input spells.
abbrev spelled : ℕ → List Bytes → AcctReply
spelled c (server_msg ∷ content ∷ _) = record {
  status = c;
  server_msg = server_msg;
  content = content;
}
spelled c _ = record { status = c; server_msg = []; content = [] }

module _ (m1 m0 n1 n0 c : ℕ) (s : Bytes) where
  abbrev lens : List ℕ
  lens = (m1 * 256 + m0) ∷ (n1 * 256 + n0) ∷ []

  abbrev input : Bytes
  input = m1 ∷ m0 ∷ n1 ∷ n0 ∷ c ∷ s

  unmarshal_spelled :
      IsByte m0
      → IsByte n0
      → unmarshal_binary input
        ≡ checked
            (args_len (read_args lens s).0 == sum lens)
            (validate (spelled c (read_args lens s).0))
            (spelled c (read_args lens s).0)
  unfolding unmarshal_binary read_byte read_args args_len
  unmarshal_spelled h k = rw (
    le→ltb (length input) 5 (omega arith),
    read_uint16_lem m1 m0 _ h,
    read_uint16_lem n1 n0 _ k,
    add_two,
    add_two (m1 * 256 + m0) (n1 * 256 + n0),
  )

  encoding_whole :
      (a : AcctReply) (rest : Bytes)
      → IsBytes (m1 ∷ m0 ∷ n1 ∷ n0 ∷ [])
      → lengths (a.server_msg ∷ a.content ∷ []) ≡ lens
      → arg_bytes (a.server_msg ∷ a.content ∷ []) ++ rest ≡ s
      → a.status ≡ c
      → Fits a × (encoding a ++ rest ≡ input)
  unfolding arg_bytes
  encoding_whole a rest small es cut same =
      let e0 : length a.server_msg ≡ m1 * 256 + m0 = cc in
      let e1 : length a.content ≡ n1 * 256 + n0 = cc in
      let (p1, p0) = word_bytes m1 m0 e0 small.0 small.1.0 in
      let (q1, q0) = word_bytes n1 n0 e1 small.1.1.0 small.1.1.1.0 in
      (
        record { first_fits = omega (arith, small); second_fits = omega (arith, small) },
        rw (p1, p0, q1, q0, same)
            (ap (λ (t : Bytes). m1 ∷ m0 ∷ n1 ∷ n0 ∷ c ∷ t) (rw append-nil at cut)),
      )

  -- An input of bytes that decodes is the encoding of the packet that it decodes to, and a rest.
  decoded :
      (a : AcctReply)
      → IsBytes (m1 ∷ m0 ∷ n1 ∷ n0 ∷ [])
      → unmarshal_binary input ≡ ok a
      → Fits a × (validate a ≡ ok tt) × (encoding a ++ (read_args lens s).1 ≡ input)
  unfolding read_args
  decoded a small e =
      let d : AcctReply = spelled c (read_args lens s).0 in
      let (whole, valid, same) =
        checked-eq-ok _ (validate d) d (rw (unmarshal_spelled small.1.0 small.1.1.1.0) at e) in
      let (fits, put) =
        encoding_whole d (read_args lens s).1 small (lengths-read_args lens s (==→eq _ _ whole))
          (read_args-split lens s) refl in
      rw (← same) (fits, valid, put)

-- An input of bytes that decodes is what `AcctReply.MarshalBinary` writes for the packet it
-- decodes to, followed by some rest, and the packet's texts fit.
pub marshal-unmarshal_acct_reply :
    (s : Bytes) (a : AcctReply)
    → IsBytes s
    → unmarshal_binary s ≡ ok a
    → Fits a × ((bytes rest : Bytes) × (marshal_binary a ≡ ok bytes) × (s ≡ bytes ++ rest))
unfolding unmarshal_binary marshal_binary
marshal-unmarshal_acct_reply (m1 ∷ m0 ∷ n1 ∷ n0 ∷ c ∷ s) a small e =
    let (fits, valid, put) = decoded m1 m0 n1 n0 c s a (omega (arith, small)) e in
    (fits, (encoding a, _, rw valid, sym put))
marshal-unmarshal_acct_reply _ a small e = cc

validate-NoBadSecret : (a : AcctReply) → NoBadSecret (validate a)
unfolding validate validate_acct_reply_status validate_acct_server_msg validate_acct_data
validate-NoBadSecret a = validate_all-NoBadSecret _ (
  require-NoBadSecret _ _ (λ p. cc),
  (require-NoBadSecret _ _ (λ p. cc), (require-NoBadSecret _ _ (λ p. cc), tt)),
)

-- On an input of bytes the decoder answers a bad secret exactly if it has five bytes at least and
-- its two lengths ask for more than what follows them.
pub unmarshal-bad_secret_acct_reply :
    (s : Bytes)
    → IsBytes s
    → (unmarshal_binary s ≡ err bad_secret) ↔ (
        (5 ≤ length s)
        × (length s
            < 5 + (get_or s 0 0 * 256 + get_or s 1 0 + (get_or s 2 0 * 256 + get_or s 3 0))))
unfolding unmarshal_binary
unmarshal-bad_secret_acct_reply (m1 ∷ m0 ∷ n1 ∷ n0 ∷ c ∷ s) small =
    let ls = lens m1 m0 n1 n0 c s in
    let d : AcctReply = spelled c (read_args ls s).0 in
    let same = unmarshal_spelled m1 m0 n1 n0 c s small.1.0 small.1.1.1.0 in
    let flagged = checked-eq-bad_secret_iff _ (validate d) d (validate-NoBadSecret d) in
    let short = whole_false_iff ls s in
    (
      λ e. (omega arith, omega (arith, short.0 (flagged.0 (rw same at e)))),
      λ h. rw same (flagged.1 (short.1 (omega (arith, h)))),
    )
unmarshal-bad_secret_acct_reply _ small = (λ e. cc, λ h. absurd (omega (arith, h)))
