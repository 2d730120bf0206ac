-- ===== src/Fields/Checks.antt =====
-- What the checks of the fields let through, and that none of them reports a bad secret.
use tacquito.Base.{ℕ, ◌≤◌, ◌≡◌, ◌≢◌, arith, Bytes, length, List, [], ◌∷◌, All, Option}
use tacquito.Base.{Result, ok, err, bad_secret, Error, ◌>>◌, bind-eq-ok, Bool, true, false}
use tacquito.Fields.{validate_all, require}
use tacquito.Fields.Authen.{validate_authen_data}
use tacquito.Fields.Author.{validate_arg, validate_args}
use tacquito.Fields.Acct.{validate_acct_request_flag}

pub validate_arg-length : (t : Bytes) → validate_arg t ≡ ok tt → (2 ≤ length t) × (length t ≤ 255)
unfolding validate_arg
validate_arg-length t h = ground arith

abbrev pub NoBadSecret : Result (Unit {0}) → Type 0
NoBadSecret r = r ≢ err bad_secret

pub validate_all-NoBadSecret :
    (rs : List (Result (Unit {0}))) → All NoBadSecret rs → NoBadSecret (validate_all rs)
unfolding validate_all
validate_all-NoBadSecret [] h = λ e. cc
validate_all-NoBadSecret (ok u ∷ rs) h = validate_all-NoBadSecret rs h.1
validate_all-NoBadSecret (err x ∷ rs) h = h.0
validate_all-NoBadSecret (Result.panic ∷ rs) h = λ e. cc

pub require-NoBadSecret : (b : Bool) (e : Error) → e ≢ bad_secret → NoBadSecret (require b e)
require-NoBadSecret true e h = λ p. cc
require-NoBadSecret false e h = λ p. h (ground arith)

pub validate_authen_data-NoBadSecret :
    (c : Option ℕ) (s : Bytes) → NoBadSecret (validate_authen_data c s)
unfolding validate_authen_data
validate_authen_data-NoBadSecret c s = ground arith

pub validate_arg-NoBadSecret : (s : Bytes) → NoBadSecret (validate_arg s)
unfolding validate_arg
validate_arg-NoBadSecret s = ground arith

pub validate_acct_request_flag-NoBadSecret : (t : ℕ) → NoBadSecret (validate_acct_request_flag t)
unfolding validate_acct_request_flag
validate_acct_request_flag-NoBadSecret t = ground arith

-- Arguments that pass have two to 255 bytes each.
pub validate_args-lengths :
    (ts : List Bytes) → validate_args ts ≡ ok tt → All (λ t. (2 ≤ length t) × (length t ≤ 255)) ts
unfolding validate_args
validate_args-lengths [] h = tt
validate_args-lengths (t ∷ ts) h =
    let (u, first, rest) = bind-eq-ok (validate_arg t) _ h in
    (validate_arg-length t first, validate_args-lengths ts rest)

pub validate_args-NoBadSecret : (ts : List Bytes) → NoBadSecret (validate_args ts)
unfolding validate_args
validate_args-NoBadSecret [] = λ p. cc
validate_args-NoBadSecret (t ∷ ts) =
    ground (arith, validate_arg-NoBadSecret t, validate_args-NoBadSecret ts)

pub then-NoBadSecret :
    (r t : Result (Unit {0})) → NoBadSecret r → NoBadSecret t → NoBadSecret (r >> t)
then-NoBadSecret (ok u) t h k = k
then-NoBadSecret (err x) t h k = h
then-NoBadSecret Result.panic t h k = λ p. cc
