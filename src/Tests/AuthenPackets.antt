-- ===== src/Tests/AuthenPackets.antt =====
-- The authentication packets on concrete bytes.
use tacquito.Base.{◌≡◌, refl, arith, [], ◌∷◌, ◌++◌}
use tacquito.Base.{ok}
use tacquito.Wire.{is_all_ascii}
use tacquito.Fields.{validate_all}
use tacquito.Fields.Authen.{
  validate_authen_action, validate_priv_lvl, validate_authen_type, validate_authen_service,
  validate_authen_user, validate_authen_port, validate_authen_rem_addr, validate_authen_data,
}
use tacquito.Authen.Start.{AuthenStart}
use tacquito.Authen.Start
use tacquito.Tests.Toy.{login, login_bytes}
use tacquito.Authen.Start.Codec as StartCodec

unmarshal-marshal_authen_start_example : Start.unmarshal_binary (login_bytes ++ (7 ∷ [])) ≡ ok login
unfolding Start.marshal_binary Start.validate validate_all validate_authen_action validate_priv_lvl
    validate_authen_type validate_authen_service validate_authen_user is_all_ascii
    validate_authen_port validate_authen_rem_addr validate_authen_data
unmarshal-marshal_authen_start_example =
    StartCodec.unmarshal-marshal_authen_start login login_bytes (7 ∷ []) refl (omega arith)
