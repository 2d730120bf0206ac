-- ===== src/Base/Outcome.antt =====
-- What a Go call gives: a value, an `error`, or a run-time panic.
use mathlib.Core.Path.{◌≡◌, refl}
use mathlib.Core.Logic.{◌⊎◌, inl, inr}
use mathlib.Core.Option.{Option, none, some}

-- The errors that the code returns, one for each place that makes one. The text of a message is not kept.
pub data Error : Type 0 where
  -- an input shorter than its kind's minimum
  too_small : Error
  -- `BadSecretErr`
  bad_secret : Error
  -- the `Validate` methods of the header fields
  invalid_major_version invalid_minor_version : Error
  unknown_header_type : Error
  sequence_zero sequence_exceeded : Error
  sequence_even sequence_stale : Error
  length_too_large : Error
  -- the `Validate` methods of the packet fields
  unknown_authen_action invalid_priv_lvl unknown_authen_type : Error
  authen_type_not_set unknown_authen_service : Error
  unknown_authen_status not_ascii : Error
  unknown_authen_method unknown_author_status unknown_acct_status : Error
  invalid_arg_length stop_and_watchdog : Error
  -- packets and connections
  nil_slice nil_header nil_body nil_packet : Error
  read_eof read_unexpected_eof max_length_exceeded bad_secret_replied : Error
  -- the configuration
  missing_option missing_password no_secret_provider : Error
  -- the line of a proxy
  header_string_malformed unknown_network short_buffer : Error
  -- the filter of the span handler
  inactive_connection switch_addr_mismatch packet_type_mismatch client_ip_mismatch : Error

pub data Result {ℓ} (Value : Type ℓ) : Type ℓ where
  -- an index or a slice bound out of range
  panic : Result Value
  err : Error → Result Value
  ok : Value → Result Value

-- The next call is made on a value; an error or a panic goes to the caller.
abbrev pub ◌>>=◌ {ℓ κ} :
    {Value : Type ℓ} {Next : Type κ} → Result Value → (Value → Result Next) → Result Next
panic >>= next = panic
err e >>= next = err e
ok value >>= next = next value

infixl 5 ◌>>=◌
-- `if err := m; err != nil { return err }`.
abbrev pub ◌>>◌ {κ} : {Next : Type κ} → Result (Unit {0}) → Result Next → Result Next
check >> next = check >>= λ _. next

infixl 5 ◌>>◌
pub ok-injective {ℓ} : {A : Type ℓ} {a b : A} → ok a ≡ ok b → a ≡ b
ok-injective h = cc

pub some-injective {ℓ} : {A : Type ℓ} {a b : A} → some a ≡ some b → a ≡ b
some-injective h = cc

pub bind-eq-ok {ℓ κ} :
    {Value : Type ℓ} {Next : Type κ} (first : Result Value) (next : Value → Result Next)
    {last : Next}
    → (first >>= next) ≡ ok last
    → (value : Value) × (first ≡ ok value) × (next value ≡ ok last)
bind-eq-ok panic next e = cc
bind-eq-ok (err x) next e = cc
bind-eq-ok (ok value) next e = (value, refl, e)

pub Option-cases {ℓ} : {A : Type ℓ} (o : Option A) → (o ≡ none) ⊎ ((a : A) × (o ≡ some a))
Option-cases none = inl refl
Option-cases (some a) = inr (a, refl)

pub Result-cases {ℓ} :
    {A : Type ℓ} (r : Result A)
    → ((a : A) × (r ≡ ok a)) ⊎ (((e : Error) × (r ≡ err e)) ⊎ (r ≡ panic))
Result-cases (ok a) = inl (a, refl)
Result-cases (err e) = inr (inl (e, refl))
Result-cases panic = inr (inr refl)
