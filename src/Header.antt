-- ===== src/Header.antt =====
-- header.go: `Header`, its options and its codec.
pub mod Codec
use tacquito.Base.{ℕ, ◌+◌, ◌%◌, Bool, true, false, List, [], ◌∷◌, ◌++◌, length, get_or, bit_or}
use tacquito.Base.{ltb, ◌==◌, if◌then◌else◌, Bytes, Result, ok, err, ◌>>=◌, ◌>>◌, apply_options}
use tacquito.Base.{too_small, length_too_large}
use tacquito.Fields.{validate_all}
use tacquito.Fields.Header.{Version, validate_version, marshal_version, unmarshal_version}
use tacquito.Fields.Header.{validate_header_type, validate_sequence_number, put_uint32, uint32}
use tacquito.Fields.Header.{flag_set, single_connect}

-- packet.go.
abbrev pub max_body_length : ℕ
max_body_length = 65536

abbrev pub max_header_length : ℕ
max_header_length = 0x0c

pub record Header : Type 0 where
  pub version : Version
  pub type : ℕ
  pub seq_no : ℕ
  pub session_id : ℕ
  pub flags : ℕ
  pub len : ℕ

abbrev pub set_header_version : Version → Header → Header
set_header_version v h = record h { version = v }

abbrev pub set_header_type : ℕ → Header → Header
set_header_type v h = record h { type = v }

-- `SequenceNumber(v)` of an int: the low sixteen bits.
abbrev pub set_header_seq_no : ℕ → Header → Header
set_header_seq_no v h = record h { seq_no = v % 65536 }

abbrev pub set_header_flag : ℕ → Header → Header
set_header_flag v h = record h { flags = v }

abbrev pub set_header_session_id : ℕ → Header → Header
set_header_session_id v h = record h { session_id = v }

-- The defaults stand in front of the options.
abbrev pub new_header : List (Header → Header) → Header
new_header opts = apply_options (set_header_seq_no 1 ∷ set_header_flag 0 ∷ opts) (record {
  version = record { major = 0; minor = 0 };
  type = 0;
  seq_no = 0;
  session_id = 0;
  flags = 0;
  len = 0;
})

unfoldable pub validate : Header → Result (Unit {0})
validate h = do
  validate_all (
      validate_version h.version
      ∷ validate_header_type h.type
      ∷ validate_sequence_number h.seq_no
      ∷ [])
  if ltb max_body_length h.len then err length_too_large else ok tt

-- `buf[0] = version[0]` and the eleven bytes behind it.
unfoldable pub marshal_binary : Header → Result Bytes
marshal_binary h = do
  validate h
  version ← marshal_version h.version
  ok (
      get_or version 0 0
      ∷ h.type
      ∷ h.seq_no % 256
      ∷ h.flags
      ∷ (put_uint32 h.session_id ++ put_uint32 h.len))

-- The first response of a session gets the single connect flag.
unfoldable pub unmarshal_binary : Bytes → Result Header
unmarshal_binary s =
    let flags = get_or s 3 0 in
    let seq_no = get_or s 2 0 in
    let h : Header = record {
      version = unmarshal_version s;
      type = get_or s 1 0;
      seq_no = seq_no;
      session_id = uint32 (get_or s 4 0) (get_or s 5 0) (get_or s 6 0) (get_or s 7 0);
      flags = if seq_no == 2 then flag_set flags single_connect else flags;
      len = uint32 (get_or s 8 0) (get_or s 9 0) (get_or s 10 0) (get_or s 11 0);
    } in
    if ltb (length s) max_header_length then err too_small else validate h >> ok h
