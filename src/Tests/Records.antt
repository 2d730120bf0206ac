-- ===== src/Tests/Records.antt =====
-- What is logged of concrete packets.
use tacquito.Base.{
  ℕ, ◌≡◌, ◌↔◌, refl, arith, [], ◌∷◌, ◌++◌, Bytes, codes, Option, none, some, ok, err,
}
use tacquito.Base.{unknown_header_type, unknown_authen_action, unknown_authen_type}
use tacquito.Base.{unknown_authen_service, unknown_authen_status, unknown_authen_method}
use tacquito.Base.{unknown_author_status, unknown_acct_status}
use tacquito.Fields.{validate_all}
use tacquito.Fields.Header.{validate_header_type}
use tacquito.Fields.Authen.{
  validate_authen_action, validate_authen_type, validate_authen_service, validate_authen_status,
}
use tacquito.Fields.Author.{validate_authen_method, validate_author_status}
use tacquito.Fields.Acct.{validate_acct_reply_status}
use tacquito.Header.{Header, validate}
use tacquito.Header.Codec.{received}
use tacquito.Packet.{with_length}
use tacquito.Authen.Start as AuthenStart
use tacquito.Authen.Continue as AuthenContinue
use tacquito.Authen.Reply as AuthenReply
use tacquito.Server.Response.{Response, Request, authen_reply, reply, reply_header, replicate}
use tacquito.Handlers.{entry, get_password}
use tacquito.Handlers.Router.{route_of}
use tacquito.Base.{inl}
use tacquito.Report.Decimal.{decimal}
use tacquito.Handlers.Records.{records, put}
use tacquito.Handlers.Records.Laws.{
  password_records-blind, start_records-blind, start_records-clear,
}
use tacquito.Report.Maps.{FieldMap, field, merge, header_fields, authen_reply_fields}
use tacquito.Report.Requests.{log_write}
use tacquito.Report.Mirrored.{log_write-mirrored}
use tacquito.Report.Names.{unknown, header_type_string, authen_action_string, authen_type_string}
use tacquito.Report.Names.{authen_service_string, authen_status_string, authen_method_string}
use tacquito.Report.Names.{author_status_string, acct_reply_status_string}
use tacquito.Report.Names.Kinds.{validate-strings}
use tacquito.Tests.Toy.{toy, login, opening, key, prompt, prompt_bytes}

abbrev watched : Response ℕ
watched = record { header = opening; next = none; writers = 2; mirrored = []; sent = [] }

log_write-mirrored_example :
    (p : Bytes) × ((reply toy key watched (authen_reply prompt)).0.mirrored ≡ [] ++ replicate 2 p)
    × (log_write p
        ≡ ok (
            some (
              merge
                (header_fields (
                  received (with_length prompt_bytes (reply_header opening (authen_reply prompt)))))
                (authen_reply_fields prompt))))
unfolding AuthenReply.marshal_binary AuthenReply.validate validate_all validate_authen_status
    validate tacquito.Fields.Header.validate_version reply_header validate_header_type
    tacquito.Fields.Header.validate_sequence_number
log_write-mirrored_example =
    log_write-mirrored toy key watched prompt prompt_bytes refl (omega arith) (omega arith) refl
      refl (omega arith) (omega arith) (omega arith) (omega arith)

-- The address of the connection is in the context.
abbrev context : Bytes → Option Bytes
context name = some (codes "::1")

abbrev answer : AuthenContinue.AuthenContinue
answer = record { flags = 0; user_message = []; content = [] }

-- The passwords "pw" and "x" in continue packets.
abbrev one_password : Request
one_password = record {
  header = record opening { len = 7 };
  body = 0 ∷ 2 ∷ 0 ∷ 0 ∷ 0 ∷ 112 ∷ 119 ∷ [];
}

abbrev other_password : Request
other_password = record { header = record opening { len = 6 }; body = 0 ∷ 1 ∷ 0 ∷ 0 ∷ 0 ∷ 120 ∷ [] }

password_records-blind_example :
    (r : FieldMap) × (records context (get_password (codes "bob")) one_password
      ≡ put r (codes "header-length") (decimal 7) ∷ [])
    × (records context (get_password (codes "bob")) other_password
        ≡ put r (codes "header-length") (decimal 6) ∷ [])
unfolding AuthenContinue.marshal_binary AuthenContinue.validate validate_all
    tacquito.Fields.Authen.validate_authen_user_message tacquito.Wire.is_all_ascii
    tacquito.Fields.Authen.validate_authen_data
password_records-blind_example =
    password_records-blind context opening 7 6 (codes "bob") (codes "pw") (codes "x") answer
      one_password.body other_password.body refl refl refl (inl (omega arith)) (inl (omega arith))
      (record { first_fits = omega arith; second_fits = omega arith })
      (record { first_fits = omega arith; second_fits = omega arith })

-- A PAP login of "b", at minor version one.
abbrev pap_login : AuthenStart.AuthenStart
pap_login = record login { type = 2; user = codes "b"; port = [] }

abbrev pap_header : Header
pap_header = record opening { version = record { major = 12; minor = 1 } }

abbrev one_login : Request
one_login = record {
  header = record pap_header { len = 11 };
  body = 1 ∷ 1 ∷ 2 ∷ 1 ∷ 1 ∷ 0 ∷ 0 ∷ 2 ∷ 98 ∷ 112 ∷ 119 ∷ [];
}

abbrev other_login : Request
other_login = record {
  header = record pap_header { len = 10 };
  body = 1 ∷ 1 ∷ 2 ∷ 1 ∷ 1 ∷ 0 ∷ 0 ∷ 1 ∷ 98 ∷ 120 ∷ [];
}

start_records-blind_example :
    (r : FieldMap) × (records context entry one_login
      ≡ put r (codes "header-length") (decimal 11) ∷ [])
    × (records context entry other_login ≡ put r (codes "header-length") (decimal 10) ∷ [])
unfolding AuthenStart.marshal_binary AuthenStart.validate validate_all validate_authen_action
    tacquito.Fields.Authen.validate_priv_lvl validate_authen_type validate_authen_service
    tacquito.Fields.Authen.validate_authen_user tacquito.Wire.is_all_ascii
    tacquito.Fields.Authen.validate_authen_port tacquito.Fields.Authen.validate_authen_rem_addr
    tacquito.Fields.Authen.validate_authen_data route_of
start_records-blind_example =
    start_records-blind context pap_header 11 10 (codes "pw") (codes "x") pap_login one_login.body
      other_login.body refl refl refl (omega arith) (omega arith) refl

-- The same login at the default minor version, which is routed nowhere.
start_records-clear_example :
    (r : FieldMap) × (records context entry (record { header = opening; body = one_login.body })
      ≡ r ∷ [])
    × (field r (codes "data") ≡ some (codes "pw"))
unfolding AuthenStart.marshal_binary AuthenStart.validate validate_all validate_authen_action
    tacquito.Fields.Authen.validate_priv_lvl validate_authen_type validate_authen_service
    tacquito.Fields.Authen.validate_authen_user tacquito.Wire.is_all_ascii
    tacquito.Fields.Authen.validate_authen_port tacquito.Fields.Authen.validate_authen_rem_addr
    tacquito.Fields.Authen.validate_authen_data route_of
start_records-clear_example =
    start_records-clear context opening (record pap_login { content = codes "pw" }) one_login.body
      refl refl (omega arith) refl

validate-strings_example :
    ((validate_header_type 9 ≡ err unknown_header_type)
      ↔ (header_type_string 9 ≡ unknown (codes "HeaderType") 9))
    × ((validate_authen_action 9 ≡ err unknown_authen_action)
        ↔ (authen_action_string 9 ≡ unknown (codes "AuthenAction") 9))
    × ((validate_authen_type 9 ≡ err unknown_authen_type)
        ↔ (authen_type_string 9 ≡ unknown (codes "AuthenType") 9))
    × ((validate_authen_service 9 ≡ err unknown_authen_service)
        ↔ (authen_service_string 9 ≡ unknown (codes "AuthenService") 9))
    × ((validate_authen_status 9 ≡ err unknown_authen_status)
        ↔ (authen_status_string 9 ≡ unknown (codes "AuthenStatus") 9))
    × ((validate_authen_method 9 ≡ err unknown_authen_method)
        ↔ (authen_method_string 9 ≡ unknown (codes "AuthenMethod") 9))
    × ((validate_author_status 9 ≡ err unknown_author_status)
        ↔ (author_status_string 9 ≡ unknown (codes "AuthorStatus") 9))
    × ((validate_acct_reply_status 9 ≡ err unknown_acct_status)
        ↔ (acct_reply_status_string 9 ≡ unknown (codes "AcctReplyStatus") 9))
validate-strings_example = validate-strings 9
