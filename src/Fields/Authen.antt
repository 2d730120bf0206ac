-- ===== src/Fields/Authen.antt =====
-- authenticate_fields.go.
use tacquito.Base.{ℕ, List, [], ◌∷◌, leb, ◌==◌, if◌then◌else◌, Bytes, Option, none, some}
use tacquito.Base.{Result, ok, unknown_authen_action, invalid_priv_lvl, unknown_authen_type}
use tacquito.Base.{unknown_authen_service, unknown_authen_status, not_ascii}
use tacquito.Fields.{among, require}
use tacquito.Wire.{is_all_ascii}

abbrev pub authen_action_login : ℕ
authen_action_login = 0x01

abbrev pub authen_action_pass : ℕ
authen_action_pass = 0x02

abbrev pub authen_action_send_auth : ℕ
authen_action_send_auth = 0x04

unfoldable pub validate_authen_action : ℕ → Result (Unit {0})
validate_authen_action t =
    require (among t (authen_action_login ∷ authen_action_pass ∷ authen_action_send_auth ∷ []))
      unknown_authen_action

abbrev pub priv_lvl_min : ℕ
priv_lvl_min = 0x0

abbrev pub priv_lvl_user : ℕ
priv_lvl_user = 0x01

abbrev pub priv_lvl_root : ℕ
priv_lvl_root = 0x0f

unfoldable pub validate_priv_lvl : ℕ → Result (Unit {0})
validate_priv_lvl t = require (leb t 15) invalid_priv_lvl

abbrev pub authen_type_not_set : ℕ
authen_type_not_set = 0x00

abbrev pub authen_type_ascii : ℕ
authen_type_ascii = 0x01

abbrev pub authen_type_pap : ℕ
authen_type_pap = 0x02

abbrev pub authen_type_chap : ℕ
authen_type_chap = 0x03

abbrev pub authen_type_arap : ℕ
authen_type_arap = 0x04

abbrev pub authen_type_mschap : ℕ
authen_type_mschap = 0x05

abbrev pub authen_type_mschapv2 : ℕ
authen_type_mschapv2 = 0x06

abbrev authen_types : List ℕ
authen_types =
    authen_type_not_set ∷ authen_type_ascii ∷ authen_type_pap ∷ authen_type_chap ∷ authen_type_arap
    ∷ authen_type_mschap ∷ authen_type_mschapv2 ∷ []

unfoldable pub validate_authen_type : ℕ → Result (Unit {0})
validate_authen_type t = require (among t authen_types) unknown_authen_type

abbrev pub authen_service_none : ℕ
authen_service_none = 0x00

abbrev pub authen_service_login : ℕ
authen_service_login = 0x01

abbrev pub authen_service_enable : ℕ
authen_service_enable = 0x02

abbrev pub authen_service_ppp : ℕ
authen_service_ppp = 0x03

abbrev pub authen_service_arap : ℕ
authen_service_arap = 0x04

abbrev pub authen_service_pt : ℕ
authen_service_pt = 0x05

abbrev pub authen_service_rcmd : ℕ
authen_service_rcmd = 0x06

abbrev pub authen_service_x25 : ℕ
authen_service_x25 = 0x07

abbrev pub authen_service_nasi : ℕ
authen_service_nasi = 0x08

abbrev pub authen_service_fw_proxy : ℕ
authen_service_fw_proxy = 0x09

abbrev authen_services : List ℕ
authen_services =
    authen_service_none ∷ authen_service_login ∷ authen_service_enable ∷ authen_service_ppp
    ∷ authen_service_arap ∷ authen_service_pt ∷ authen_service_rcmd ∷ authen_service_x25
    ∷ authen_service_nasi ∷ authen_service_fw_proxy ∷ []

unfoldable pub validate_authen_service : ℕ → Result (Unit {0})
validate_authen_service t = require (among t authen_services) unknown_authen_service

abbrev pub authen_status_pass : ℕ
authen_status_pass = 0x01

abbrev pub authen_status_fail : ℕ
authen_status_fail = 0x02

abbrev pub authen_status_get_data : ℕ
authen_status_get_data = 0x03

abbrev pub authen_status_get_user : ℕ
authen_status_get_user = 0x04

abbrev pub authen_status_get_pass : ℕ
authen_status_get_pass = 0x05

abbrev pub authen_status_restart : ℕ
authen_status_restart = 0x06

abbrev pub authen_status_error : ℕ
authen_status_error = 0x07

abbrev authen_statuses : List ℕ
authen_statuses =
    authen_status_pass ∷ authen_status_fail ∷ authen_status_get_data ∷ authen_status_get_user
    ∷ authen_status_get_pass ∷ authen_status_restart ∷ authen_status_error ∷ []

unfoldable pub validate_authen_status : ℕ → Result (Unit {0})
validate_authen_status t = require (among t authen_statuses) unknown_authen_status

unfoldable pub validate_authen_user_message : Bytes → Result (Unit {0})
validate_authen_user_message s = require (is_all_ascii s) not_ascii

-- The condition is an `AuthenType`, or nothing that the switch knows.
unfoldable pub validate_authen_data : Option ℕ → Bytes → Result (Unit {0})
validate_authen_data none s = ok tt
validate_authen_data (some atype) s =
    if atype == authen_type_ascii then require (is_all_ascii s) not_ascii else ok tt

unfoldable pub validate_authen_user : Bytes → Result (Unit {0})
validate_authen_user s = require (is_all_ascii s) not_ascii

unfoldable pub validate_authen_port : Bytes → Result (Unit {0})
validate_authen_port s = require (is_all_ascii s) not_ascii

unfoldable pub validate_authen_rem_addr : Bytes → Result (Unit {0})
validate_authen_rem_addr s = require (is_all_ascii s) not_ascii

abbrev pub authen_reply_flag_no_echo : ℕ
authen_reply_flag_no_echo = 0x01

abbrev pub authen_continue_flag_abort : ℕ
authen_continue_flag_abort = 0x01
