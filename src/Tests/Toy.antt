-- ===== src/Tests/Toy.antt =====
-- A stand-in for MD5 that is cheap to compute, and a login on the wire.
use tacquito.Base.{
  ◌≡◌, refl, ok, arith, [], ◌∷◌, ◌++◌, length, take, length-take, length-append, Bytes, codes,
}
use tacquito.Header.{Header}
use tacquito.Authen.Start
use tacquito.Authen.Reply
use tacquito.Fields.{validate_all}
use tacquito.Fields.Authen.{
  validate_authen_action, validate_priv_lvl, validate_authen_type, validate_authen_service,
  validate_authen_user, validate_authen_port, validate_authen_rem_addr, validate_authen_data,
  validate_authen_status,
}
use tacquito.Wire.{read_byte, read_uint16, read_string, is_all_ascii}
use tacquito.Authen.Start.{AuthenStart}
use tacquito.Authen.Reply.{AuthenReply}

abbrev sixteen : Bytes
sixteen = 1 ∷ 2 ∷ 3 ∷ 4 ∷ 5 ∷ 6 ∷ 7 ∷ 8 ∷ 9 ∷ 10 ∷ 11 ∷ 12 ∷ 13 ∷ 14 ∷ 15 ∷ 16 ∷ []

-- The first sixteen bytes of the input and sixteen more.
abbrev pub toy : Bytes → Bytes
toy x = take 16 (x ++ sixteen)

pub length-toy : (x : Bytes) → length (toy x) ≡ 16
length-toy x = omega (arith, length-take 16 (x ++ sixteen), length-append x sixteen)

abbrev pub login : AuthenStart
login = record {
  action = 1;
  priv_lvl = 1;
  type = 1;
  service = 1;
  user = codes "bob";
  port = codes "tty0";
  rem_addr = [];
  content = [];
}

abbrev pub login_bytes : Bytes
login_bytes = 1 ∷ 1 ∷ 1 ∷ 1 ∷ 3 ∷ 4 ∷ 0 ∷ 0 ∷ 98 ∷ 111 ∷ 98 ∷ 116 ∷ 116 ∷ 121 ∷ 48 ∷ []

-- The packet opens session 7.
abbrev pub opening : Header
opening = record {
  version = record { major = 12; minor = 0 };
  type = 1;
  seq_no = 1;
  session_id = 7;
  flags = 0;
  len = 15;
}

abbrev pub key : Bytes
key = codes "key"

abbrev pub prompt : AuthenReply
prompt = record { status = 5; flags = 1; server_msg = codes "pw:"; content = [] }

abbrev pub prompt_bytes : Bytes
prompt_bytes = 5 ∷ 1 ∷ 0 ∷ 3 ∷ 0 ∷ 0 ∷ 112 ∷ 119 ∷ 58 ∷ []

pub login_decodes : Start.unmarshal_binary login_bytes ≡ ok login
unfolding Start.unmarshal_binary Start.validate Start.len validate_all read_string read_byte
    validate_authen_action validate_priv_lvl validate_authen_type validate_authen_service
    validate_authen_user is_all_ascii validate_authen_port validate_authen_rem_addr
    validate_authen_data
login_decodes = refl

pub prompt_decodes : Reply.unmarshal_binary prompt_bytes ≡ ok prompt
unfolding Reply.unmarshal_binary Reply.validate Reply.len validate_all read_string read_uint16
    validate_authen_status
prompt_decodes = refl
