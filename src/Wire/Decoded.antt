-- ===== src/Wire/Decoded.antt =====
-- The end that the seven decoders share: the length check that detects a bad secret, then `Validate`.
use tacquito.Base.{
  ℕ, ◌+◌, ◌*◌, ◌/◌, ◌%◌, ◌<◌, ◌≡◌, ◌≢◌, arith, Bool, true, false, not, if◌then◌else◌,
}
use tacquito.Base.{Result, ok, err, bad_secret, ◌>>◌, Bytes, length}
use tacquito.Base.{List, ◌↔◌, ◌==◌}
use tacquito.Wire.{read_args, args_len}
use tacquito.Wire.Sound.{sum, args_len-read_args}

module _ {ℓ} {A : Type ℓ} (whole : Bool) (valid : Result (Unit {0})) (d : A) where
  abbrev pub checked : Result A
  checked = if not whole then err bad_secret else (valid >> ok d)

  pub checked-eq-ok : {a : A} → checked ≡ ok a → (whole ≡ true) × (valid ≡ ok tt) × (d ≡ a)
  checked-eq-ok h = ground arith

  pub checked-eq-bad_secret_iff :
      valid ≢ err bad_secret → (checked ≡ err bad_secret) ↔ (whole ≡ false)
  checked-eq-bad_secret_iff n = ((λ h. ground arith), (λ h. ground arith))

-- The lengths are not all there exactly when they ask for more than the buffer holds.
pub whole_false_iff :
    (lens : List ℕ) (s : Bytes)
    → ((args_len (read_args lens s).0 == sum lens) ≡ false) ↔ (length s < sum lens)
whole_false_iff lens s =
    (λ h. ground (arith, args_len-read_args lens s), λ h. ground (arith, args_len-read_args lens s))

-- Two texts behind two-byte lengths, as three of the packets carry them.
pub record FitsWords (x y : Bytes) : Type 0 where
  pub first_fits : length x < 65536
  pub second_fits : length y < 65536

-- A two-byte length, written and read.
pub word_bytes :
    {m : ℕ} (c d : ℕ) → m ≡ c * 256 + d → c < 256 → d < 256 → (m / 256 % 256 ≡ c) × (m % 256 ≡ d)
word_bytes c d e h k = omega arith
