-- ===== src/Acct/Request/Codec.antt =====
-- `AcctRequest.MarshalBinary` against `AcctRequest.UnmarshalBinary`.
use tacquito.Base.{ℕ, ◌%◌, ◌<◌, ◌≡◌, sym, ap, arith}
use tacquito.Base.{List, [], ◌∷◌, ◌++◌, append_assoc, length, Bytes, IsBytes}
use tacquito.Base.{ok, ok-injective, bind-eq-ok, le→ltb, ==→eq, ==_refl, ◌==◌}
use tacquito.Fields.Checks.{validate_args-lengths}
use tacquito.Fields.Author.{validate_args}
use tacquito.Wire.{read_arg_lens, read_args, args_len, arg_bytes, arg_len_bytes}
use tacquito.Wire.Laws.{
  read_string-append, read_arg_lens-append, read_args-append, lengths, FitsByte,
}
use tacquito.Wire.Sound.{sum, add_total, low_byte, lengths-read_args, read_args-split}
use tacquito.Wire.Sound.{read_arg_lens-sum}
use tacquito.Wire.Sound.{FitsByte-valid}
use tacquito.Wire.Args.{args_whole}
use tacquito.Wire.Decoded.{checked, checked-eq-ok}
use tacquito.Acct.Request.{AcctRequest, validate, marshal_binary, unmarshal_binary}

-- The texts are short enough for their length bytes, and the arguments few enough for theirs.
-- An argument that passes `Validate` fits.
pub record Fits (a : AcctRequest) : Type 0 where
  pub user_fits : FitsByte a.user
  pub port_fits : FitsByte a.port
  pub rem_addr_fits : FitsByte a.rem_addr
  pub args_fit : length a.args < 256

abbrev encoding : AcctRequest → Bytes
encoding a =
    a.flags
    ∷ a.method
    ∷ a.priv_lvl
    ∷ a.type
    ∷ a.service
    ∷ length a.user % 256
    ∷ length a.port % 256
    ∷ length a.rem_addr % 256
    ∷ length a.args % 256
    ∷ (arg_len_bytes a.args ++ (a.user ++ (a.port ++ (a.rem_addr ++ arg_bytes a.args))))

validate-args : (a : AcctRequest) → validate a ≡ ok tt → validate_args a.args ≡ ok tt
unfolding validate
validate-args a v = (bind-eq-ok _ (λ _. validate_args a.args) v).2

unmarshal-encoding :
    (a : AcctRequest) (rest : Bytes)
    → validate a ≡ ok tt
    → Fits a
    → unmarshal_binary (encoding a ++ rest) ≡ ok a
unfolding unmarshal_binary
unmarshal-encoding a rest v f =
    let fu : length a.user % 256 ≡ length a.user = omega arith in
    let fp : length a.port % 256 ≡ length a.port = omega arith in
    let fr : length a.rem_addr % 256 ≡ length a.rem_addr = omega arith in
    let fa : length a.args % 256 ≡ length a.args = omega arith in
    let each = FitsByte-valid a.args (validate_args-lengths a.args (validate-args a v)) in
    rw (le→ltb (length (encoding a ++ rest)) 9 (omega arith)) (
      simp (fu, fp, fr, fa, append_assoc)
        (rw (read_arg_lens-append a.args _ each)
          (simp (read_string-append, read_args-append, ==_refl) (rw v))))

-- What `AcctRequest.MarshalBinary` writes for a packet whose texts and arguments fit,
-- `AcctRequest.UnmarshalBinary` reads back as that packet, whatever bytes follow.
pub unmarshal-marshal_acct_request :
    (a : AcctRequest) (bytes rest : Bytes)
    → marshal_binary a ≡ ok bytes
    → Fits a
    → unmarshal_binary (bytes ++ rest) ≡ ok a
unfolding marshal_binary
unmarshal-marshal_acct_request a bytes rest m f =
    let (u, v, w) = bind-eq-ok (validate a) _ m in
    rw (← (ok-injective w)) (unmarshal-encoding a rest v f)

-- The packet that a long enough input spells: five numbers, three texts and the arguments.
abbrev spelled : ℕ → ℕ → ℕ → ℕ → ℕ → List Bytes → AcctRequest
spelled c c0 c1 c2 c3 (user ∷ port ∷ rem_addr ∷ args) = record {
  flags = c;
  method = c0;
  priv_lvl = c1;
  type = c2;
  service = c3;
  user = user;
  port = port;
  rem_addr = rem_addr;
  args = args;
}
spelled c c0 c1 c2 c3 _ = record {
  flags = c;
  method = c0;
  priv_lvl = c1;
  type = c2;
  service = c3;
  user = [];
  port = [];
  rem_addr = [];
  args = [];
}

module _ (c c0 c1 c2 c3 n0 n1 n2 count : ℕ) (s : Bytes) where
  abbrev input : Bytes
  input = c ∷ c0 ∷ c1 ∷ c2 ∷ c3 ∷ n0 ∷ n1 ∷ n2 ∷ count ∷ s

  abbrev arg_lens : List ℕ
  arg_lens = (read_arg_lens count s).0

  abbrev body : Bytes
  body = (read_arg_lens count s).2

  abbrev lens : List ℕ
  lens = n0 ∷ n1 ∷ n2 ∷ arg_lens

  unmarshal_spelled :
      unmarshal_binary input
      ≡ checked
          (args_len (read_args lens body).0 == sum lens)
          (validate (spelled c c0 c1 c2 c3 (read_args lens body).0))
          (spelled c c0 c1 c2 c3 (read_args lens body).0)
  unfolding unmarshal_binary read_args args_len
  unmarshal_spelled = rw (
    le→ltb (length input) 9 (omega arith),
    add_total,
    add_total n0 n1 n2 (read_arg_lens count s).1,
    read_arg_lens-sum count s,
  )

  -- Texts as long as the lengths say are written as they were read.
  encoding_whole :
      (a : AcctRequest) (rest : Bytes)
      → IsBytes (n0 ∷ n1 ∷ n2 ∷ count ∷ s)
      → validate a ≡ ok tt
      → lengths (a.user ∷ a.port ∷ a.rem_addr ∷ a.args) ≡ lens
      → arg_bytes (a.user ∷ a.port ∷ a.rem_addr ∷ a.args) ++ rest ≡ body
      → Fits a
        × (encoding a ++ rest
            ≡ a.flags ∷ a.method ∷ a.priv_lvl ∷ a.type ∷ a.service ∷ n0 ∷ n1 ∷ n2 ∷ count ∷ s)
  unfolding arg_bytes
  encoding_whole a rest small v es cut =
      let e0 : length a.user ≡ n0 = cc in
      let e1 : length a.port ≡ n1 = cc in
      let e2 : length a.rem_addr ≡ n2 = cc in
      let e3 : lengths a.args ≡ arg_lens = cc in
      let texts : Bytes = a.user ++ (a.port ++ (a.rem_addr ++ arg_bytes a.args)) in
      let ranges = validate_args-lengths a.args (validate-args a v) in
      let (e4, tail) = args_whole a.args count s texts rest small.1.1.1.1 ranges e3 cut in
      (
        omega (arith, small),
        rw
            (
              low_byte n0 e0 small.0,
              low_byte n1 e1 small.1.0,
              low_byte n2 e2 small.1.1.0,
              low_byte count e4 small.1.1.1.0,
            )
            (ap
              (λ (t : Bytes).
                a.flags ∷ a.method ∷ a.priv_lvl ∷ a.type ∷ a.service ∷ n0 ∷ n1 ∷ n2 ∷ count ∷ t)
              tail),
      )

  -- An input of bytes that decodes is the encoding of the packet that it decodes to, and a rest.
  decoded :
      (a : AcctRequest)
      → IsBytes (n0 ∷ n1 ∷ n2 ∷ count ∷ s)
      → unmarshal_binary input ≡ ok a
      → Fits a × (validate a ≡ ok tt) × (encoding a ++ (read_args lens body).1 ≡ input)
  unfolding read_args
  decoded a small e =
      let d : AcctRequest = spelled c c0 c1 c2 c3 (read_args lens body).0 in
      let (whole, valid, same) = checked-eq-ok _ (validate d) d (rw unmarshal_spelled at e) in
      let (fits, put) =
        encoding_whole d (read_args lens body).1 small valid
          (lengths-read_args lens body (==→eq _ _ whole)) (read_args-split lens body) in
      rw (← same) (fits, valid, put)

-- An input of bytes that decodes is what `AcctRequest.MarshalBinary` writes for the packet it
-- decodes to, followed by some rest, and the packet's texts and arguments fit.
pub marshal-unmarshal_acct_request :
    (s : Bytes) (a : AcctRequest)
    → IsBytes s
    → unmarshal_binary s ≡ ok a
    → Fits a × ((bytes rest : Bytes) × (marshal_binary a ≡ ok bytes) × (s ≡ bytes ++ rest))
unfolding unmarshal_binary marshal_binary
marshal-unmarshal_acct_request (c ∷ c0 ∷ c1 ∷ c2 ∷ c3 ∷ n0 ∷ n1 ∷ n2 ∷ count ∷ s) a small e =
    let (fits, valid, put) = decoded c c0 c1 c2 c3 n0 n1 n2 count s a small.1.1.1.1.1 e in
    (fits, (encoding a, _, rw valid, sym put))
marshal-unmarshal_acct_request _ a small e = cc
