-- ===== src/Login.antt =====
-- cmds/client: the packets of an ASCII and of a PAP login, and the loop of an ASCII login. Flags are
-- arguments, and so is the random session identifier of a PAP login.
pub mod Laws
pub mod Pap
use tacquito.Base.{ℕ, Bool, true, false, ◌==◌, if◌then◌else◌, List, [], ◌∷◌, Bytes, codes}
use tacquito.Base.{Option, none, some, Result, ok, err, panic, ◌>>=◌}
use tacquito.Fields.Header.{Version, major_version, minor_version_default, minor_version_one}
use tacquito.Fields.Header.{authenticate}
use tacquito.Fields.Authen.{authen_action_login, authen_type_ascii, authen_type_pap, priv_lvl_user}
use tacquito.Fields.Authen.{authen_service_login, authen_status_get_user, authen_status_get_pass}
use tacquito.Fields.Authen.{authen_status_pass}
use tacquito.Header.{Header, new_header, set_header_version, set_header_type, set_header_seq_no}
use tacquito.Header.{set_header_session_id}
use tacquito.Packet.{Packet, new_packet, set_packet_header, set_packet_body_unsafe}
use tacquito.Authen.Start.{new_authen_start, set_authen_start_action, set_authen_start_priv_lvl}
use tacquito.Authen.Start.{set_authen_start_type, set_authen_start_service, set_authen_start_port}
use tacquito.Authen.Start.{set_authen_start_rem_addr, set_authen_start_user, set_authen_start_data}
use tacquito.Authen.Start as AuthenStart
use tacquito.Authen.Continue.{new_authen_continue, set_authen_continue_user_message}
use tacquito.Authen.Continue as AuthenContinue
use tacquito.Authen.Reply as AuthenReply

-- `asciiSequence`: a packet, and the status that its reply has to have.
pub record AsciiSequence : Type 0 where
  pub packet : Packet
  pub expected : ℕ

-- What the three functions `validate` ask of a response; one that fails ends the program.
unfoldable pub validate : ℕ → Bytes → Bool
validate expected response = elim (AuthenReply.unmarshal_binary response) [
  | ok body ↦ body.status == expected
  | err e ↦ false
  | panic ↦ false
]

abbrev pub version : ℕ → Version
version minor = record { major = major_version; minor = minor }

abbrev pub login_packet : Header → Result Bytes → Result Packet
login_packet header body = set_packet_body_unsafe body (new_packet (set_packet_header header ∷ []))

unfoldable pub authen_request : Result Packet
authen_request =
    login_packet
      (new_header (
        set_header_version (version minor_version_default)
        ∷ set_header_type authenticate
        ∷ set_header_session_id 12345
        ∷ []))
      (AuthenStart.marshal_binary (
        new_authen_start (
          set_authen_start_action authen_action_login
          ∷ set_authen_start_priv_lvl priv_lvl_user
          ∷ set_authen_start_type authen_type_ascii
          ∷ set_authen_start_service authen_service_login
          ∷ set_authen_start_port (codes "tty0")
          ∷ set_authen_start_rem_addr (codes "devvm2515")
          ∷ [])))

-- `authenContinueUsername` and `authenContinuePassword`, which differ in their sequence numbers.
unfoldable pub continue_request : ℕ → Bytes → Result Packet
continue_request seq_no message =
    login_packet
      (new_header (
        set_header_version (version minor_version_default)
        ∷ set_header_type authenticate
        ∷ set_header_seq_no seq_no
        ∷ set_header_session_id 12345
        ∷ []))
      (AuthenContinue.marshal_binary
        (new_authen_continue (set_authen_continue_user_message message ∷ [])))

-- `newASCIIAuthenSequence`. The password is taken and not used: the third packet has the user's name.
unfoldable pub new_ascii_authen_sequence : Bytes → Bytes → Result (List AsciiSequence)
unfolding authen_request continue_request
new_ascii_authen_sequence username password = do
  first ← authen_request
  second ← continue_request 3 username
  third ← continue_request 5 username
  ok (
      record { packet = first; expected = authen_status_get_user }
      ∷ record { packet = second; expected = authen_status_get_pass }
      ∷ record { packet = third; expected = authen_status_pass }
      ∷ [])

-- The loop of `ascii`, on what `Send` gives for the packets in turn: the last response, or none where
-- the program exits.
unfoldable pub play : List AsciiSequence → List (Result Packet) → Option Packet → Option Packet
unfolding validate
play [] responses last = last
play (s ∷ sequences) (ok response ∷ responses) last = elim response.body [
  | none ↦ none
  | some body ↦
      let rest = play sequences responses (some response) in
      if validate s.expected body then rest else none
]
play (s ∷ sequences) responses last = none

-- `newPAPRequest`.
unfoldable pub new_pap_request : ℕ → ℕ → Bytes → Bytes → Bytes → Bytes → Result Packet
new_pap_request session_id priv_lvl port rem_addr username password =
    login_packet
      (new_header (
        set_header_version (version minor_version_one)
        ∷ set_header_type authenticate
        ∷ set_header_session_id session_id
        ∷ []))
      (AuthenStart.marshal_binary (
        new_authen_start (
          set_authen_start_type authen_type_pap
          ∷ set_authen_start_action authen_action_login
          ∷ set_authen_start_priv_lvl priv_lvl
          ∷ set_authen_start_port port
          ∷ set_authen_start_rem_addr rem_addr
          ∷ set_authen_start_user username
          ∷ set_authen_start_data password
          ∷ [])))
