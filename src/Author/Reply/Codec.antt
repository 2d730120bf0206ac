-- ===== src/Author/Reply/Codec.antt =====
-- `AuthorReply.MarshalBinary` against `AuthorReply.UnmarshalBinary`.
use tacquito.Base.{ℕ, ◌+◌, ◌*◌, ◌/◌, ◌%◌, ◌<◌, ◌≡◌, sym, ap, arith}
use tacquito.Base.{List, [], ◌∷◌, ◌++◌, append_assoc, length, Bytes, IsByte, IsBytes}
use tacquito.Base.{ok, ok-injective, bind-eq-ok, le→ltb, ==→eq, ==_refl, ◌==◌}
use tacquito.Fields.Checks.{validate_args-lengths}
use tacquito.Fields.Author.{validate_args}
use tacquito.Wire.{read_byte, read_arg_lens, read_args, args_len, arg_bytes, arg_len_bytes}
use tacquito.Wire.Laws.{read_string-append, read_arg_lens-append, read_args-append, lengths}
use tacquito.Wire.Sound.{sum, add_pair_total, low_byte, lengths-read_args, read_args-split}
use tacquito.Wire.Sound.{read_arg_lens-sum}
use tacquito.Wire.Sound.{FitsByte-valid}
use tacquito.Wire.Args.{args_whole}
use tacquito.Wire.Decoded.{checked, checked-eq-ok, word_bytes}
use tacquito.Wire.Laws.{read_uint16-append, read_uint16_lem}
use tacquito.Author.Reply.{AuthorReply, validate, marshal_binary, unmarshal_binary}

-- The texts are short enough for their two-byte lengths, and the arguments few enough for theirs.
-- An argument that passes `Validate` fits.
pub record Fits (a : AuthorReply) : Type 0 where
  pub server_msg_fits : length a.server_msg < 65536
  pub content_fits : length a.content < 65536
  pub args_fit : length a.args < 256

-- A length as its two bytes.
abbrev word : ℕ → Bytes → Bytes
word n rest = n / 256 % 256 ∷ n % 256 ∷ rest

abbrev encoding : AuthorReply → Bytes
encoding a =
    a.status
    ∷ length a.args % 256
    ∷ word (length a.server_msg) (
        word (length a.content)
          (arg_len_bytes a.args ++ (a.server_msg ++ (a.content ++ arg_bytes a.args))))

validate-args : (a : AuthorReply) → validate a ≡ ok tt → validate_args a.args ≡ ok tt
unfolding validate
validate-args a v = (bind-eq-ok _ (λ _. validate_args a.args) v).2

unmarshal-encoding :
    (a : AuthorReply) (rest : Bytes)
    → validate a ≡ ok tt
    → Fits a
    → unmarshal_binary (encoding a ++ rest) ≡ ok a
unfolding unmarshal_binary read_byte
unmarshal-encoding a rest v f =
    let fa : length a.args % 256 ≡ length a.args = omega arith in
    let each = FitsByte-valid a.args (validate_args-lengths a.args (validate-args a v)) in
    rw
      (
        le→ltb (length (encoding a ++ rest)) 6 (omega arith),
        read_uint16-append (length a.server_msg) _ f.server_msg_fits,
        read_uint16-append (length a.content) _ f.content_fits,
      )
      (simp (fa, append_assoc)
        (rw (read_arg_lens-append a.args _ each)
          (simp (read_string-append, read_args-append, ==_refl) (rw v))))

-- What `AuthorReply.MarshalBinary` writes for a packet whose texts and arguments fit,
-- `AuthorReply.UnmarshalBinary` reads back as that packet, whatever bytes follow.
pub unmarshal-marshal_author_reply :
    (a : AuthorReply) (bytes rest : Bytes)
    → marshal_binary a ≡ ok bytes
    → Fits a
    → unmarshal_binary (bytes ++ rest) ≡ ok a
unfolding marshal_binary
unmarshal-marshal_author_reply a bytes rest m f =
    let (u, v, w) = bind-eq-ok (validate a) _ m in
    rw (← (ok-injective w)) (unmarshal-encoding a rest v f)

-- The packet that a long enough input spells: a status, two texts and the arguments.
abbrev spelled : ℕ → List Bytes → AuthorReply
spelled c (server_msg ∷ content ∷ args) = record {
  status = c;
  args = args;
  server_msg = server_msg;
  content = content;
}
spelled c _ = record { status = c; args = []; server_msg = []; content = [] }

module _ (c count m1 m0 n1 n0 : ℕ) (s : Bytes) where
  abbrev input : Bytes
  input = c ∷ count ∷ m1 ∷ m0 ∷ n1 ∷ n0 ∷ s

  abbrev body : Bytes
  body = (read_arg_lens count s).2

  abbrev lens : List ℕ
  lens = (m1 * 256 + m0) ∷ (n1 * 256 + n0) ∷ (read_arg_lens count s).0

  unmarshal_spelled :
      IsByte m0
      → IsByte n0
      → unmarshal_binary input
        ≡ checked
            (args_len (read_args lens body).0 == sum lens)
            (validate (spelled c (read_args lens body).0))
            (spelled c (read_args lens body).0)
  unfolding unmarshal_binary read_byte read_args args_len
  unmarshal_spelled h k = rw (
    le→ltb (length input) 6 (omega arith),
    read_uint16_lem m1 m0 _ h,
    read_uint16_lem n1 n0 _ k,
    add_pair_total,
    add_pair_total (m1 * 256 + m0) (n1 * 256 + n0) (read_arg_lens count s).1,
    read_arg_lens-sum count s,
  )

  -- Texts as long as the lengths say are written as they were read.
  encoding_whole :
      (a : AuthorReply) (rest : Bytes)
      → IsBytes (count ∷ m1 ∷ m0 ∷ n1 ∷ n0 ∷ s)
      → validate a ≡ ok tt
      → lengths (a.server_msg ∷ a.content ∷ a.args) ≡ lens
      → arg_bytes (a.server_msg ∷ a.content ∷ a.args) ++ rest ≡ body
      → Fits a × (encoding a ++ rest ≡ a.status ∷ count ∷ m1 ∷ m0 ∷ n1 ∷ n0 ∷ s)
  unfolding arg_bytes
  encoding_whole a rest small v es cut =
      let e0 : length a.server_msg ≡ m1 * 256 + m0 = cc in
      let e1 : length a.content ≡ n1 * 256 + n0 = cc in
      let e2 : lengths a.args ≡ (read_arg_lens count s).0 = cc in
      let texts : Bytes = a.server_msg ++ (a.content ++ arg_bytes a.args) in
      let ranges = validate_args-lengths a.args (validate-args a v) in
      let (e3, tail) = args_whole a.args count s texts rest small.1.1.1.1.1 ranges e2 cut in
      let (p1, p0) = word_bytes m1 m0 e0 small.1.0 small.1.1.0 in
      let (q1, q0) = word_bytes n1 n0 e1 small.1.1.1.0 small.1.1.1.1.0 in
      (
        record {
          server_msg_fits = omega (arith, small);
          content_fits = omega (arith, small);
          args_fit = omega (arith, small);
        },
        rw (low_byte count e3 small.0, p1, p0, q1, q0)
            (ap (λ (t : Bytes). a.status ∷ count ∷ m1 ∷ m0 ∷ n1 ∷ n0 ∷ t) tail),
      )

  -- An input of bytes that decodes is the encoding of the packet that it decodes to, and a rest.
  decoded :
      (a : AuthorReply)
      → IsBytes (count ∷ m1 ∷ m0 ∷ n1 ∷ n0 ∷ s)
      → unmarshal_binary input ≡ ok a
      → Fits a × (validate a ≡ ok tt) × (encoding a ++ (read_args lens body).1 ≡ input)
  unfolding read_args
  decoded a small e =
      let d : AuthorReply = spelled c (read_args lens body).0 in
      let (whole, valid, same) =
        checked-eq-ok _ (validate d) d (rw (unmarshal_spelled small.1.1.0 small.1.1.1.1.0) at e) in
      let (fits, put) =
        encoding_whole d (read_args lens body).1 small valid
          (lengths-read_args lens body (==→eq _ _ whole)) (read_args-split lens body) in
      rw (← same) (fits, valid, put)

-- An input of bytes that decodes is what `AuthorReply.MarshalBinary` writes for the packet it
-- decodes to, followed by some rest, and the packet's texts and arguments fit.
pub marshal-unmarshal_author_reply :
    (s : Bytes) (a : AuthorReply)
    → IsBytes s
    → unmarshal_binary s ≡ ok a
    → Fits a × ((bytes rest : Bytes) × (marshal_binary a ≡ ok bytes) × (s ≡ bytes ++ rest))
unfolding unmarshal_binary marshal_binary
marshal-unmarshal_author_reply (c ∷ count ∷ m1 ∷ m0 ∷ n1 ∷ n0 ∷ s) a small e =
    let (fits, valid, put) = decoded c count m1 m0 n1 n0 s a small.1 e in
    (fits, (encoding a, _, rw valid, sym put))
marshal-unmarshal_author_reply _ a small e = cc
