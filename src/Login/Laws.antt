-- ===== src/Login/Laws.antt =====
-- What a server makes of the packets of a login.
use tacquito.Base.{
  ℕ, ◌/◌, ◌%◌, ◌<◌, ◌≡◌, ◌≢◌, refl, sym, ◌∙◌, arith, true, false, [], ◌∷◌, append-nil, length,
  Bytes, codes, Option, some, ok, err, Error,
}
use tacquito.Base.{inl, inr, Result-cases, panic, inl, inr}
use tacquito.Wire.{is_all_ascii}
use tacquito.Fields.Authen.{
  validate_authen_user_message, validate_authen_data, authen_status_get_user,
  authen_status_get_pass, authen_status_pass,
}
use tacquito.Fields.{validate_all}
use tacquito.Fields.Header.{authenticate, minor_version_default, flag_has}
use tacquito.Header.{Header}
use tacquito.Packet.{Packet, with_length}
use tacquito.Packet.Codec.{whole}
use tacquito.Authen.Start as AuthenStart
use tacquito.Authen.Start.Codec as StartCodec
use tacquito.Handlers.Router.{ascii, route_of}
use tacquito.Authen.Total.{unmarshal_start-total}
use tacquito.Authen.Continue as AuthenContinue
use tacquito.Authen.Continue.Codec.{encoding, unmarshal-marshal_authen_continue}
use tacquito.Server.Response.{Request}
use tacquito.Server.Serve.{call_next, call_register_writer}
use tacquito.Handlers.{
  entry, get_username, get_password, Aaa, handle, reply_authen, ask_password, continue_stop,
}
use tacquito.Handlers.Steps.{entry-ascii, get_username-continue, get_password-continue}
use tacquito.Config.Bcrypt as Bcrypt
use tacquito.Report.Requests.{try_fields}
use tacquito.Report.Shown.{start_refuses, try_fields-ok}
use tacquito.Login.{version, authen_request, continue_request, new_ascii_authen_sequence}

abbrev message : Bytes → AuthenContinue.AuthenContinue
message m = record { flags = 0; user_message = m; content = [] }

abbrev continue_header : ℕ → Header
continue_header seq_no = record {
  version = version minor_version_default;
  type = authenticate;
  seq_no = seq_no % 65536;
  session_id = 12345;
  flags = 0;
  len = 0;
}

marshal_message :
    (m : Bytes)
    → is_all_ascii m ≡ true
    → AuthenContinue.marshal_binary (message m) ≡ ok (encoding (message m))
unfolding AuthenContinue.marshal_binary AuthenContinue.validate validate_all
    validate_authen_user_message validate_authen_data
marshal_message m h = rw h refl

unmarshal_message :
    (m : Bytes)
    → is_all_ascii m ≡ true
    → length m < 65536
    → AuthenContinue.unmarshal_binary (encoding (message m)) ≡ ok (message m)
unmarshal_message m h small = rw append-nil at (
    unmarshal-marshal_authen_continue (message m) (encoding (message m)) [] (marshal_message m h)
      (record { first_fits = small; second_fits = omega arith }))

-- The packet of a name or a password, as the server's handler gets it.
abbrev pub continue_packet : ℕ → Bytes → Request
continue_packet seq_no m = record {
  header = with_length (encoding (message m)) (continue_header seq_no);
  body = encoding (message m);
}

continue_request_lem :
    (seq_no : ℕ) (m : Bytes)
    → is_all_ascii m ≡ true
    → continue_request seq_no m
      ≡ ok (whole (continue_packet seq_no m).header (continue_packet seq_no m).body)
unfolding continue_request
continue_request_lem seq_no m h = rw (marshal_message m h) refl

continue_stop-message :
    (seq_no : ℕ) (m : Bytes)
    → is_all_ascii m ≡ true
    → length m < 65536
    → continue_stop (continue_packet seq_no m) ≡ false
unfolding continue_stop flag_has
continue_stop-message seq_no m h small = rw (continue_stop, unmarshal_message m h small) refl

start_refused :
    (m : Bytes)
    → length m < 256
    → (e : Error) × (AuthenStart.unmarshal_binary (encoding (message m)) ≡ err e)
start_refused m small = elim (Result-cases (AuthenStart.unmarshal_binary (encoding (message m)))) [
  | inl a ↦ absurd (
      let high : length m / 256 % 256 ≡ 0 = omega arith in
      let later : try_fields [] (λ b. []) (AuthenStart.unmarshal_binary (encoding (message m)))
            panic
          ≡ panic =
        start_refuses [] (λ b. []) (encoding (message m)) panic (rw high refl) in
      let bad = sym (try_fields-ok [] (λ b. []) _ a.0 panic a.1) ∙ later in cc)
  | inr (inl e) ↦ e
  | inr (inr p) ↦ absurd (unmarshal_start-total _ p)
]

-- The bcrypt authenticator takes the message for the password.
get_password-message :
    (seq_no : ℕ) (m : Bytes)
    → is_all_ascii m ≡ true
    → length m < 256
    → Bcrypt.get_password (continue_packet seq_no m) ≡ ok m
unfolding Bcrypt.get_password Bcrypt.get_continue_password
get_password-message seq_no m h small =
    let (e, refused) = start_refused m small in
    rw (Bcrypt.get_password, refused)
      (rw (Bcrypt.get_continue_password, unmarshal_message m h (omega arith)) refl)

abbrev opening : AuthenStart.AuthenStart
opening = record {
  action = 1;
  priv_lvl = 1;
  type = 1;
  service = 1;
  user = [];
  port = codes "tty0";
  rem_addr = codes "devvm2515";
  content = [];
}

abbrev pub opening_packet : Request
opening_packet = record {
  header = with_length (StartCodec.encoding opening) (continue_header 1);
  body = StartCodec.encoding opening;
}

authen_request_lem : authen_request ≡ ok (whole opening_packet.header opening_packet.body)
unfolding authen_request AuthenStart.marshal_binary AuthenStart.validate validate_all
    tacquito.Fields.Authen.validate_authen_action tacquito.Fields.Authen.validate_priv_lvl
    tacquito.Fields.Authen.validate_authen_type tacquito.Fields.Authen.validate_authen_service
    tacquito.Fields.Authen.validate_authen_user is_all_ascii
    tacquito.Fields.Authen.validate_authen_port tacquito.Fields.Authen.validate_authen_rem_addr
    validate_authen_data
authen_request_lem = refl

unmarshal_opening : AuthenStart.unmarshal_binary opening_packet.body ≡ ok opening
unfolding AuthenStart.unmarshal_binary tacquito.Wire.read_string tacquito.Wire.read_byte
    AuthenStart.validate validate_all tacquito.Fields.Authen.validate_authen_action
    tacquito.Fields.Authen.validate_priv_lvl tacquito.Fields.Authen.validate_authen_type
    tacquito.Fields.Authen.validate_authen_service tacquito.Fields.Authen.validate_authen_user
    is_all_ascii tacquito.Fields.Authen.validate_authen_port
    tacquito.Fields.Authen.validate_authen_rem_addr validate_authen_data
unmarshal_opening = refl

continue_stop-opening : continue_stop opening_packet ≡ false
unfolding continue_stop AuthenContinue.unmarshal_binary tacquito.Wire.read_string
    tacquito.Wire.read_byte tacquito.Wire.read_uint16
continue_stop-opening = refl

route_opening : route_of opening 0 ≡ some ascii
unfolding route_of
route_opening = refl

abbrev pub packet_of : Request → Packet
packet_of r = whole r.header r.body

module _ (get_user : Bytes → Option Aaa) (print_id : ℕ → Bytes) where
  -- The three packets of an ASCII login take a server from prompt to prompt, each for the handler that
  -- waits for it, up to the authenticator of the user, for a name in ASCII of one to 255 bytes; but what
  -- a bcrypt authenticator then takes for the password is the name, whatever password was typed.
  pub ascii_login-walked :
      (username password : Bytes) (c : Aaa)
      → is_all_ascii username ≡ true
      → length username < 256
      → length username ≢ 0
      → get_user username ≡ some c
      → (new_ascii_authen_sequence username password
          ≡ ok (
              record { packet = packet_of opening_packet; expected = authen_status_get_user }
              ∷ record {
                packet = packet_of (continue_packet 3 username);
                expected = authen_status_get_pass;
              }
              ∷ record {
                packet = packet_of (continue_packet 5 username);
                expected = authen_status_pass;
              }
              ∷ []))
        × (handle get_user print_id entry opening_packet
            ≡ call_register_writer (
                call_next
                  (get_username [])
                  (reply_authen authen_status_get_user (codes "username:"))))
        × (handle get_user print_id (get_username []) (continue_packet 3 username)
            ≡ call_register_writer (ask_password get_user print_id username))
        × (handle get_user print_id (get_password username) (continue_packet 5 username)
            ≡ call_register_writer (c.authenticator (continue_packet 5 username)))
        × (Bcrypt.get_password (continue_packet 5 username) ≡ ok username)
  unfolding new_ascii_authen_sequence
  ascii_login-walked username password c ascii_name short named known = (
    rw
        (
          authen_request_lem,
          continue_request_lem 3 username ascii_name,
          continue_request_lem 5 username ascii_name,
        )
        refl,
    entry-ascii get_user print_id opening_packet opening refl unmarshal_opening route_opening
        continue_stop-opening refl,
    get_username-continue get_user print_id (continue_packet 3 username) (message username)
        (continue_stop-message 3 username ascii_name (omega arith))
        (unmarshal_message username ascii_name (omega arith)) named,
    get_password-continue get_user print_id (continue_packet 5 username) username (message username)
        c (continue_stop-message 5 username ascii_name (omega arith))
        (unmarshal_message username ascii_name (omega arith)) named known,
    get_password-message 5 username ascii_name short,
  )
