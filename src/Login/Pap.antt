-- ===== src/Login/Pap.antt =====
-- What a server makes of the packet of a PAP login.
use tacquito.Base.{
  ℕ, ◌≤◌, ◌<◌, ◌≡◌, ◌≢◌, refl, arith, true, [], append-nil, length, Bytes, Option, some, ok, leb,
}
use tacquito.Wire.{is_all_ascii}
use tacquito.Fields.{validate_all}
use tacquito.Fields.Authen.{
  validate_priv_lvl, validate_authen_user, validate_authen_port, validate_authen_rem_addr,
}
use tacquito.Fields.Header.{authenticate, minor_version_one}
use tacquito.Header.{Header}
use tacquito.Packet.{with_length}
use tacquito.Authen.Start as AuthenStart
use tacquito.Authen.Start.Codec.{encoding, unmarshal-marshal_authen_start}
use tacquito.Server.Response.{Request}
use tacquito.Server.Serve.{call_register_writer}
use tacquito.Handlers.{entry, Aaa, handle}
use tacquito.Handlers.Router.{pap, route_of}
use tacquito.Handlers.Steps.{entry-pap}
use tacquito.Config.Bcrypt as Bcrypt
use tacquito.Login.{version, new_pap_request}
use tacquito.Login.Laws.{packet_of}

abbrev start : ℕ → Bytes → Bytes → Bytes → Bytes → AuthenStart.AuthenStart
start priv_lvl port rem_addr username password = record {
  action = 1;
  priv_lvl = priv_lvl;
  type = 2;
  service = 0;
  user = username;
  port = port;
  rem_addr = rem_addr;
  content = password;
}

abbrev pap_header : ℕ → Header
pap_header session_id = record {
  version = version minor_version_one;
  type = authenticate;
  seq_no = 1;
  session_id = session_id;
  flags = 0;
  len = 0;
}

abbrev pub pap_packet : ℕ → ℕ → Bytes → Bytes → Bytes → Bytes → Request
pap_packet session_id priv_lvl port rem_addr username password =
    let body = encoding (start priv_lvl port rem_addr username password) in
    record { header = with_length body (pap_header session_id); body = body }

-- What a PAP login is given on the command line.
pub record IsGiven (priv_lvl : ℕ) (port rem_addr username password : Bytes) : Type 0 where
  pub priv_lvl_le : priv_lvl ≤ 15
  pub user_ascii : is_all_ascii username ≡ true
  pub port_ascii : is_all_ascii port ≡ true
  pub rem_addr_ascii : is_all_ascii rem_addr ≡ true
  pub user_short : length username < 256
  pub port_short : length port < 256
  pub rem_addr_short : length rem_addr < 256
  pub password_short : length password < 256

allowed_lvl : (priv_lvl : ℕ) → priv_lvl ≤ 15 → leb priv_lvl 15 ≡ true
allowed_lvl priv_lvl h = ground arith

marshal_start :
    (priv_lvl : ℕ) (port rem_addr username password : Bytes)
    → IsGiven priv_lvl port rem_addr username password
    → AuthenStart.marshal_binary (start priv_lvl port rem_addr username password)
      ≡ ok (encoding (start priv_lvl port rem_addr username password))
unfolding AuthenStart.marshal_binary AuthenStart.validate validate_all validate_priv_lvl
    validate_authen_user validate_authen_port validate_authen_rem_addr
    tacquito.Fields.Authen.validate_authen_action tacquito.Fields.Authen.validate_authen_type
    tacquito.Fields.Authen.validate_authen_service tacquito.Fields.Authen.validate_authen_data
marshal_start priv_lvl port rem_addr username password t =
    rw (allowed_lvl priv_lvl t.priv_lvl_le, t.user_ascii, t.port_ascii, t.rem_addr_ascii) refl

unmarshal_start :
    (priv_lvl : ℕ) (port rem_addr username password : Bytes)
    → IsGiven priv_lvl port rem_addr username password
    → AuthenStart.unmarshal_binary (encoding (start priv_lvl port rem_addr username password))
      ≡ ok (start priv_lvl port rem_addr username password)
unmarshal_start priv_lvl port rem_addr username password t = rw append-nil at (
    unmarshal-marshal_authen_start (start priv_lvl port rem_addr username password) _ []
      (marshal_start priv_lvl port rem_addr username password t)
      (record {
        user_fits = t.user_short;
        port_fits = t.port_short;
        rem_addr_fits = t.rem_addr_short;
        content_fits = t.password_short;
      }))

route_start :
    (priv_lvl : ℕ) (port rem_addr username password : Bytes)
    → route_of (start priv_lvl port rem_addr username password) minor_version_one ≡ some pap
unfolding route_of
route_start priv_lvl port rem_addr username password = refl

-- The packet of a PAP login, for a privilege level of at most 15, and for a name, a port and an address
-- in ASCII and a password, of fewer than 256 bytes each, where name and password are not empty, is
-- built, and a server gives it to the authenticator of the user with that name; what a bcrypt
-- authenticator then takes for the password is the password that was typed.
pub pap_login-handled :
    (get_user : Bytes → Option Aaa) (print_id : ℕ → Bytes) (session_id priv_lvl : ℕ)
    (port rem_addr username password : Bytes) (c : Aaa)
    → IsGiven priv_lvl port rem_addr username password
    → length username ≢ 0
    → length password ≢ 0
    → get_user username ≡ some c
    → (new_pap_request session_id priv_lvl port rem_addr username password
        ≡ ok (packet_of (pap_packet session_id priv_lvl port rem_addr username password)))
      × (handle get_user print_id entry
            (pap_packet session_id priv_lvl port rem_addr username password)
          ≡ call_register_writer
              (c.authenticator (pap_packet session_id priv_lvl port rem_addr username password)))
      × (Bcrypt.get_password (pap_packet session_id priv_lvl port rem_addr username password)
          ≡ ok password)
unfolding new_pap_request Bcrypt.get_password
pap_login-handled get_user print_id session_id priv_lvl port rem_addr username password c t named
      filled known =
    let decoded = unmarshal_start priv_lvl port rem_addr username password t in
    (
      rw (marshal_start priv_lvl port rem_addr username password t) refl,
      entry-pap get_user print_id (pap_packet session_id priv_lvl port rem_addr username password)
          (start priv_lvl port rem_addr username password) c refl decoded
          (route_start priv_lvl port rem_addr username password) named filled known,
      rw (Bcrypt.get_password, decoded) refl,
    )
