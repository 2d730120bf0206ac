-- ===== src/Tests/Connections.antt =====
-- Headers, obfuscation and connections on concrete bytes.
use tacquito.Base.{
  ◌+◌, ◌*◌, ◌%◌, ◌^◌, ◌≤◌, ◌<◌, ◌≡◌, ◌↔◌, refl, arith, [], ◌∷◌, ◌++◌, length, take, Bytes, true,
}
use tacquito.Base.{some, ok, if◌then◌else◌, ◌==◌, bit_or}
use tacquito.Fields.{validate_all}
use tacquito.Fields.Header.{
  validate_version, validate_header_type, validate_sequence_number, marshal_version,
  unmarshal_version, uint32, flag_has, authenticate,
}
use tacquito.Header.{validate, marshal_binary, unmarshal_binary}
use tacquito.Header.Codec.{received, marshal-unmarshal_header}
use tacquito.Packet.{with_length}
use tacquito.Packet.Codec.{whole}
use tacquito.Crypt.{crypt, pad_loop}
use tacquito.Crypt.Pad.{hash_series, pad_loop_lem}
use tacquito.Crypt.Involution.{crypt_twice}
use tacquito.Crypt.BadSecret.{all_report, detect_bad_secret}
use tacquito.Crypt.BadSecret.Decodes.{start}
use tacquito.Crypt.BadSecret.Laws.{Refuses, all_report-authenticate, detect_bad_secret-Refuses}
use tacquito.Crypt.Connection.{read, write, packet}
use tacquito.Crypt.Connection.RoundTrip.{read-write}
use tacquito.Tests.Toy.{toy, length-toy, login, login_bytes, opening, key, login_decodes}

abbrev opening_bytes : Bytes
opening_bytes = 192 ∷ 1 ∷ 1 ∷ 0 ∷ 0 ∷ 0 ∷ 0 ∷ 7 ∷ 0 ∷ 0 ∷ 0 ∷ 15 ∷ []

marshal-unmarshal_header_example :
    (marshal_binary opening ≡ ok opening_bytes)
    × (opening.flags ≡ (if 1 == 2 then bit_or 0 4 else 0))
unfolding unmarshal_binary validate validate_all validate_version unmarshal_version
    validate_header_type validate_sequence_number uint32
marshal-unmarshal_header_example =
    marshal-unmarshal_header 192 1 1 0 0 0 0 7 0 0 0 15 login_bytes opening (omega arith) refl

pad_loop_lem_example :
    pad_loop toy 20 (1 ∷ 2 ∷ []) 20 [] [] ≡ take 20 (hash_series toy length-toy 2 (1 ∷ 2 ∷ []) [])
pad_loop_lem_example = pad_loop_lem toy length-toy 2 20 (1 ∷ 2 ∷ []) (omega arith)

crypt_twice_example :
    (c : Bytes) × (crypt toy key (whole opening login_bytes) ≡ ok (whole opening c))
    × (length c ≡ length login_bytes)
    × (crypt toy key (whole (record opening { flags = 4 }) c)
        ≡ ok (whole (record opening { flags = 4 }) login_bytes))
unfolding marshal_version validate_version flag_has
crypt_twice_example =
    crypt_twice toy length-toy key opening 4 login_bytes (192 ∷ []) refl (omega arith) refl

read-write_example :
    (out : Bytes) × (write toy key (some (whole opening login_bytes)) ≡ ok out)
    × (read toy key (out ++ (9 ∷ []))
        ≡ ok (packet (whole (received (with_length login_bytes opening)) login_bytes), 9 ∷ []))
unfolding validate validate_all validate_version validate_header_type validate_sequence_number
read-write_example =
    read-write toy length-toy key opening login_bytes (9 ∷ []) (omega arith) refl (omega arith)
      (start {a = login} refl login_decodes)

-- Lengths that no authentication packet of nine bytes can have.
abbrev garbage : Bytes
garbage = 200 ∷ 201 ∷ 202 ∷ 203 ∷ 204 ∷ 205 ∷ 206 ∷ 207 ∷ 208 ∷ []

all_report-authenticate_example : (all_report authenticate garbage ≡ true) ↔ (
    (8 ≤ 9)
    × (9 < 8 + (204 + 205 + 206 + 207))
    × (9 < 5 + (200 * 256 + 201 + (202 * 256 + 203)))
    × (9 < 6 + (202 * 256 + 203 + (204 * 256 + 205))))
all_report-authenticate_example = all_report-authenticate garbage (omega arith)

detect_bad_secret-Refuses_example :
    (r : Bytes) × (detect_bad_secret opening garbage
      ≡ ok (some (whole (record opening { seq_no = 1; len = length r % 2 ^ 32 }) r)))
    × Refuses r 1
unfolding validate_header_type flag_has
detect_bad_secret-Refuses_example =
    detect_bad_secret-Refuses opening garbage refl refl
      ((all_report-authenticate garbage (omega arith)).1 (omega arith))
