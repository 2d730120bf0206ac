-- ===== src/Tests/ArgPackets.antt =====
-- The authorization and accounting packets on concrete bytes.
use tacquito.Base.{◌≡◌, refl, arith, [], ◌∷◌, ◌++◌, Bytes, codes}
use tacquito.Base.{ok}
use tacquito.Wire.{is_all_ascii, arg_len_bytes, arg_bytes}
use tacquito.Fields.{validate_all}
use tacquito.Fields.Authen.{
  validate_priv_lvl, validate_authen_type, validate_authen_service, validate_authen_user,
  validate_authen_port, validate_authen_rem_addr,
}
use tacquito.Fields.Author.{validate_authen_method, validate_arg, validate_args}
use tacquito.Author.Request.{AuthorRequest}
use tacquito.Author.Request as AuthorRequests
use tacquito.Author.Request.Codec as AuthorRequestCodec

abbrev command : AuthorRequest
command = record {
  method = 1;
  priv_lvl = 1;
  type = 1;
  service = 1;
  user = codes "bob";
  port = [];
  rem_addr = [];
  args = codes "cmd=show" ∷ codes "cmd-arg=ip" ∷ [];
}

abbrev command_bytes : Bytes
command_bytes =
    1 ∷ 1 ∷ 1 ∷ 1 ∷ 3 ∷ 0 ∷ 0 ∷ 2 ∷ 8 ∷ 10 ∷ 98 ∷ 111 ∷ 98 ∷ 99 ∷ 109 ∷ 100 ∷ 61 ∷ 115 ∷ 104 ∷ 111
    ∷ 119 ∷ 99 ∷ 109 ∷ 100 ∷ 45 ∷ 97 ∷ 114 ∷ 103 ∷ 61 ∷ 105 ∷ 112 ∷ []

unmarshal-marshal_author_request_example :
    AuthorRequests.unmarshal_binary (command_bytes ++ (7 ∷ [])) ≡ ok command
unfolding AuthorRequests.marshal_binary AuthorRequests.validate validate_all validate_authen_method
    validate_priv_lvl validate_authen_type validate_authen_service validate_authen_user is_all_ascii
    validate_authen_port validate_authen_rem_addr validate_args validate_arg arg_len_bytes arg_bytes
unmarshal-marshal_author_request_example =
    AuthorRequestCodec.unmarshal-marshal_author_request command command_bytes (7 ∷ []) refl
      (omega arith)
