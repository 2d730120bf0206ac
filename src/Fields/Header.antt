-- ===== src/Fields/Header.antt =====
-- header_fields.go: `Version`, `HeaderType`, `SequenceNumber`, `ClientSequenceNumber`,
-- `LastSequence` and `HeaderFlag`.
use tacquito.Base.{ℕ, ◌+◌, ◌*◌, ◌/◌, ◌%◌, ◌^◌, bit_and, bit_or, bit_xor, Bool, not}
use tacquito.Base.{[], ◌∷◌, ltb, leb, ◌==◌, if◌then◌else◌, Bytes, get_or}
use tacquito.Base.{Result, ok, err, ◌>>◌}
use tacquito.Base.{invalid_major_version, invalid_minor_version, unknown_header_type}
use tacquito.Base.{sequence_zero, sequence_exceeded, sequence_even, sequence_stale}
use tacquito.Fields.{among, require}

abbrev pub major_version : ℕ
major_version = 0xc

abbrev pub minor_version_default : ℕ
minor_version_default = 0x0

abbrev pub minor_version_one : ℕ
minor_version_one = 0x1

abbrev pub header_max_sequence : ℕ
header_max_sequence = 255

pub record Version : Type 0 where
  pub major : ℕ
  pub minor : ℕ

unfoldable pub validate_version : Version → Result (Unit {0})
validate_version v =
    if v.major == major_version
    then require (among v.minor (minor_version_default ∷ minor_version_one ∷ []))
        invalid_minor_version
    else err invalid_major_version

-- `v.MajorVersion<<4 | v.MinorVersion`, shifted as a uint8.
unfoldable pub marshal_version : Version → Result Bytes
marshal_version v = do validate_version v; ok (bit_or (v.major * 2 ^ 4 % 256) v.minor ∷ [])

unfoldable pub unmarshal_version : Bytes → Version
unmarshal_version s = record { major = get_or s 0 0 / 2 ^ 4; minor = bit_and (get_or s 0 0) 0xf }

-- `binary.BigEndian.PutUint32`.
unfoldable pub put_uint32 : ℕ → Bytes
put_uint32 n = n / 2 ^ 24 % 256 ∷ n / 2 ^ 16 % 256 ∷ n / 2 ^ 8 % 256 ∷ n % 256 ∷ []

-- `binary.BigEndian.Uint32` of four bytes.
unfoldable pub uint32 : ℕ → ℕ → ℕ → ℕ → ℕ
uint32 a b c d = a * 2 ^ 24 + b * 2 ^ 16 + c * 2 ^ 8 + d

unfoldable pub marshal_session_id : ℕ → Bytes
marshal_session_id = put_uint32

abbrev pub authenticate : ℕ
authenticate = 0x01

abbrev pub authorize : ℕ
authorize = 0x02

abbrev pub accounting : ℕ
accounting = 0x03

unfoldable pub validate_header_type : ℕ → Result (Unit {0})
validate_header_type t =
    require (among t (authenticate ∷ authorize ∷ accounting ∷ [])) unknown_header_type

-- A `SequenceNumber` is a uint16.
unfoldable pub validate_sequence_number : ℕ → Result (Unit {0})
validate_sequence_number v =
    if ltb v 1
    then err sequence_zero
    else if ltb header_max_sequence v
    then err sequence_exceeded
    else ok tt

-- `ClientSequenceNumber(n).Validate`, where the conversion keeps the low byte of the uint16.
unfoldable pub validate_client_sequence_number : ℕ → Result (Unit {0})
validate_client_sequence_number n = if n % 256 % 2 == 0 then err sequence_even else ok tt

-- `LastSequence(last).Validate(current)`: both are cut to their low byte.
unfoldable pub validate_last_sequence : ℕ → ℕ → Result (Unit {0})
validate_last_sequence last current =
    if leb (current % 256) (last % 256) then err sequence_stale else ok tt

abbrev pub unencrypted_flag : ℕ
unencrypted_flag = 0x01

abbrev pub single_connect : ℕ
single_connect = 0x04

-- The methods that the four flag types share: `b | f`, `b &^ f`, `b ^ f` and `b&f != 0` on a uint8.
-- `b &^ f` is what is left of `b` without the bits that it has in common with `f`.
unfoldable pub flag_set : ℕ → ℕ → ℕ
flag_set b f = bit_or b f

unfoldable pub flag_clear : ℕ → ℕ → ℕ
flag_clear b f = bit_xor b (bit_and b f)

unfoldable pub flag_toggle : ℕ → ℕ → ℕ
flag_toggle b f = bit_xor b f

unfoldable pub flag_has : ℕ → ℕ → Bool
flag_has b f = not (bit_and b f == 0)
