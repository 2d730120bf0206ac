-- ===== src/Authen/Start/Codec.antt =====
-- `AuthenStart.MarshalBinary` against `AuthenStart.UnmarshalBinary`.
use tacquito.Base.{
  ℕ, ◌+◌, ◌%◌, ◌≤◌, ◌<◌, ◌≡◌, sym, ap, arith, List, [], ◌∷◌, ◌++◌, append_assoc, append-nil, ==→eq,
}
use tacquito.Base.{ok-injective, bind-eq-ok, length, Bytes, IsBytes, ok, err, le→ltb, ==_refl, ◌==◌}
use tacquito.Wire.{read_byte, read_args, args_len, arg_bytes}
use tacquito.Wire.Decoded.{checked, checked-eq-ok, checked-eq-bad_secret_iff, whole_false_iff}
use tacquito.Wire.Sound.{sum, add_four, low_byte, lengths-read_args, read_args-split}
use tacquito.Wire.Laws.{read_string-append, FitsByte, lengths}
use tacquito.Fields.Authen.{authen_type_not_set}
use tacquito.Base.{Bool-cases, inl, inr, bad_secret, ◌↔◌, get_or}
use tacquito.Fields.Checks.{
  NoBadSecret, validate_all-NoBadSecret, require-NoBadSecret, validate_authen_data-NoBadSecret,
}
use tacquito.Fields.Authen.{validate_authen_action, validate_priv_lvl, validate_authen_type}
use tacquito.Fields.Authen.{
  validate_authen_service, validate_authen_user, validate_authen_port, validate_authen_rem_addr,
}
use tacquito.Authen.Start.{AuthenStart, validate, marshal_binary, unmarshal_binary}

-- The four texts are short enough for their length bytes.
pub record Fits (a : AuthenStart) : Type 0 where
  pub user_fits : FitsByte a.user
  pub port_fits : FitsByte a.port
  pub rem_addr_fits : FitsByte a.rem_addr
  pub content_fits : FitsByte a.content

abbrev pub encoding : AuthenStart → Bytes
encoding a =
    a.action
    ∷ a.priv_lvl
    ∷ a.type
    ∷ a.service
    ∷ length a.user % 256
    ∷ length a.port % 256
    ∷ length a.rem_addr % 256
    ∷ length a.content % 256
    ∷ (a.user ++ (a.port ++ (a.rem_addr ++ a.content)))

unmarshal-encoding :
    (a : AuthenStart) (rest : Bytes)
    → validate a ≡ ok tt
    → Fits a
    → unmarshal_binary (encoding a ++ rest) ≡ ok a
unfolding unmarshal_binary read_byte
unmarshal-encoding a rest v f =
    let fu : length a.user % 256 ≡ length a.user = omega arith in
    let fp : length a.port % 256 ≡ length a.port = omega arith in
    let fr : length a.rem_addr % 256 ≡ length a.rem_addr = omega arith in
    let fc : length a.content % 256 ≡ length a.content = omega arith in
    rw (le→ltb (length (encoding a ++ rest)) 8 (omega arith))
      (simp (fu, fp, fr, fc, append_assoc, read_string-append, ==_refl) (rw v))

pub marshal-encoding :
    (a : AuthenStart) (bytes : Bytes)
    → marshal_binary a ≡ ok bytes
    → (validate a ≡ ok tt) × (encoding a ≡ bytes)
unfolding marshal_binary
marshal-encoding a bytes m = let (u, v, w) = bind-eq-ok (validate a) _ m in (v, ok-injective w)

-- What `AuthenStart.MarshalBinary` writes for a packet whose texts fit, `AuthenStart.UnmarshalBinary`
-- reads back as that packet, whatever bytes follow.
pub unmarshal-marshal_authen_start :
    (a : AuthenStart) (bytes rest : Bytes)
    → marshal_binary a ≡ ok bytes
    → Fits a
    → unmarshal_binary (bytes ++ rest) ≡ ok a
unfolding marshal_binary
unmarshal-marshal_authen_start a bytes rest m f =
    let (u, v, w) = bind-eq-ok (validate a) _ m in
    rw (← (ok-injective w)) (unmarshal-encoding a rest v f)

-- The packet that a long enough input spells: four numbers, and the texts cut by the length bytes.
abbrev spelled : ℕ → ℕ → ℕ → ℕ → List Bytes → AuthenStart
spelled c0 c1 c2 c3 (user ∷ port ∷ rem_addr ∷ content ∷ _) = record {
  action = c0;
  priv_lvl = c1;
  type = c2;
  service = c3;
  user = user;
  port = port;
  rem_addr = rem_addr;
  content = content;
}
spelled c0 c1 c2 c3 _ = record {
  action = c0;
  priv_lvl = c1;
  type = c2;
  service = c3;
  user = [];
  port = [];
  rem_addr = [];
  content = [];
}

abbrev texts : ℕ → ℕ → ℕ → ℕ → Bytes → List Bytes
texts n0 n1 n2 n3 s = (read_args (n0 ∷ n1 ∷ n2 ∷ n3 ∷ []) s).0

unmarshal_spelled :
    (c0 c1 c2 c3 n0 n1 n2 n3 : ℕ) (s : Bytes)
    → unmarshal_binary (c0 ∷ c1 ∷ c2 ∷ c3 ∷ n0 ∷ n1 ∷ n2 ∷ n3 ∷ s)
      ≡ checked
          (args_len (texts n0 n1 n2 n3 s) == sum (n0 ∷ n1 ∷ n2 ∷ n3 ∷ []))
          (validate (spelled c0 c1 c2 c3 (texts n0 n1 n2 n3 s)))
          (spelled c0 c1 c2 c3 (texts n0 n1 n2 n3 s))
unfolding unmarshal_binary read_byte read_args args_len
unmarshal_spelled c0 c1 c2 c3 n0 n1 n2 n3 s = rw (
  le→ltb (length (c0 ∷ c1 ∷ c2 ∷ c3 ∷ n0 ∷ n1 ∷ n2 ∷ n3 ∷ s)) 8 (omega arith),
  add_four,
  add_four,
)

-- Texts as long as the length bytes say fit, and are written as they were read.
encoding_whole :
    (a : AuthenStart) (n0 n1 n2 n3 : ℕ) (rest s : Bytes)
    → IsBytes (n0 ∷ n1 ∷ n2 ∷ n3 ∷ [])
    → lengths (a.user ∷ a.port ∷ a.rem_addr ∷ a.content ∷ []) ≡ n0 ∷ n1 ∷ n2 ∷ n3 ∷ []
    → arg_bytes (a.user ∷ a.port ∷ a.rem_addr ∷ a.content ∷ []) ++ rest ≡ s
    → Fits a
      × (encoding a ++ rest ≡ a.action ∷ a.priv_lvl ∷ a.type ∷ a.service ∷ n0 ∷ n1 ∷ n2 ∷ n3 ∷ s)
unfolding arg_bytes
encoding_whole a n0 n1 n2 n3 rest s small lens cut =
    let e0 : length a.user ≡ n0 = cc in
    let e1 : length a.port ≡ n1 = cc in
    let e2 : length a.rem_addr ≡ n2 = cc in
    let e3 : length a.content ≡ n3 = cc in
    (
      omega (arith, small),
      rw
          (
            low_byte n0 e0 small.0,
            low_byte n1 e1 small.1.0,
            low_byte n2 e2 small.1.1.0,
            low_byte n3 e3 small.1.1.1.0,
          )
          (ap (λ (t : Bytes). a.action ∷ a.priv_lvl ∷ a.type ∷ a.service ∷ n0 ∷ n1 ∷ n2 ∷ n3 ∷ t)
            (rw append-nil at cut)),
    )

-- An input of bytes that decodes is the encoding of the packet that it decodes to, with some rest.
decoded :
    (c0 c1 c2 c3 n0 n1 n2 n3 : ℕ) (s : Bytes) (a : AuthenStart)
    → IsBytes (n0 ∷ n1 ∷ n2 ∷ n3 ∷ [])
    → unmarshal_binary (c0 ∷ c1 ∷ c2 ∷ c3 ∷ n0 ∷ n1 ∷ n2 ∷ n3 ∷ s) ≡ ok a
    → Fits a
      × (validate a ≡ ok tt)
      × (encoding a ++ (read_args (n0 ∷ n1 ∷ n2 ∷ n3 ∷ []) s).1
          ≡ c0 ∷ c1 ∷ c2 ∷ c3 ∷ n0 ∷ n1 ∷ n2 ∷ n3 ∷ s)
unfolding read_args
decoded c0 c1 c2 c3 n0 n1 n2 n3 s a small e =
    let lens = n0 ∷ n1 ∷ n2 ∷ n3 ∷ [] in
    let d : AuthenStart = spelled c0 c1 c2 c3 (texts n0 n1 n2 n3 s) in
    let (whole, valid, same) = checked-eq-ok _ (validate d) d (rw unmarshal_spelled at e) in
    let (fits, put) =
      encoding_whole d n0 n1 n2 n3 (read_args lens s).1 s small
        (lengths-read_args lens s (==→eq _ _ whole)) (read_args-split lens s) in
    rw (← same) (fits, valid, put)

-- An input of bytes that decodes is what `AuthenStart.MarshalBinary` writes for the packet it
-- decodes to, followed by some rest, and the packet's texts fit.
pub marshal-unmarshal_authen_start :
    (s : Bytes) (a : AuthenStart)
    → IsBytes s
    → unmarshal_binary s ≡ ok a
    → Fits a × ((bytes rest : Bytes) × (marshal_binary a ≡ ok bytes) × (s ≡ bytes ++ rest))
unfolding unmarshal_binary marshal_binary
marshal-unmarshal_authen_start (c0 ∷ c1 ∷ c2 ∷ c3 ∷ n0 ∷ n1 ∷ n2 ∷ n3 ∷ s) a small e =
    let (fits, valid, put) = decoded c0 c1 c2 c3 n0 n1 n2 n3 s a (omega (arith, small)) e in
    (fits, (encoding a, _, rw valid, sym put))
marshal-unmarshal_authen_start _ a small e = cc

validate-NoBadSecret : (a : AuthenStart) → NoBadSecret (validate a)
unfolding validate validate_authen_action validate_priv_lvl validate_authen_type
    validate_authen_service validate_authen_user validate_authen_port validate_authen_rem_addr
validate-NoBadSecret a = elim (Bool-cases (a.type == authen_type_not_set)) [
  | inl e ↦ rw e (λ p. cc)
  | inr e ↦ rw e (
      validate_all-NoBadSecret _ (
        require-NoBadSecret _ _ (λ p. cc),
        (
          require-NoBadSecret _ _ (λ p. cc),
          (
            require-NoBadSecret _ _ (λ p. cc),
            (
              require-NoBadSecret _ _ (λ p. cc),
              (
                require-NoBadSecret _ _ (λ p. cc),
                (
                  require-NoBadSecret _ _ (λ p. cc),
                  (require-NoBadSecret _ _ (λ p. cc), (validate_authen_data-NoBadSecret _ _, tt)),
                ),
              ),
            ),
          ),
        ),
      ))
]

-- The decoder answers a bad secret exactly on an input of eight bytes at least whose length bytes
-- ask for more than what follows them.
pub unmarshal-bad_secret_authen_start :
    (s : Bytes)
    → (unmarshal_binary s ≡ err bad_secret) ↔ (
        (8 ≤ length s)
        × (length s < 8 + (get_or s 4 0 + get_or s 5 0 + get_or s 6 0 + get_or s 7 0)))
unfolding unmarshal_binary
unmarshal-bad_secret_authen_start (c0 ∷ c1 ∷ c2 ∷ c3 ∷ n0 ∷ n1 ∷ n2 ∷ n3 ∷ s) =
    let lens = n0 ∷ n1 ∷ n2 ∷ n3 ∷ [] in
    let d : AuthenStart = spelled c0 c1 c2 c3 (texts n0 n1 n2 n3 s) in
    let flagged = checked-eq-bad_secret_iff _ (validate d) d (validate-NoBadSecret d) in
    let short = whole_false_iff lens s in
    (
      λ e. (omega arith, omega (arith, short.0 (flagged.0 (rw unmarshal_spelled at e)))),
      λ h. rw unmarshal_spelled (flagged.1 (short.1 (omega (arith, h)))),
    )
unmarshal-bad_secret_authen_start _ = (λ e. cc, λ h. absurd (omega (arith, h)))
