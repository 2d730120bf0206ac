-- ===== src/Authen/Total.antt =====
-- The decoders of authenticate.go that an authenticator calls never panic.
use tacquito.Base.{
  ℕ, if◌then◌else◌, ◌≢◌, arith, Bytes, List, [], ◌∷◌, All, Bool, true, false, Option, none, some,
  Error,
}
use tacquito.Base.{Result, ok, err, panic, ◌>>◌}
use tacquito.Fields.{validate_all, require}
use tacquito.Fields.Authen.{
  validate_authen_action, validate_priv_lvl, validate_authen_type, validate_authen_service,
}
use tacquito.Fields.Authen.{
  validate_authen_user, validate_authen_port, validate_authen_rem_addr, validate_authen_data,
  validate_authen_user_message,
}
use tacquito.Wire.Decoded.{checked}
use tacquito.Authen.Start as AuthenStart
use tacquito.Authen.Continue as AuthenContinue

abbrev pub Total : Result (Unit {0}) → Type 0
Total r = r ≢ panic

pub no_panic : (r t : Result (Unit {0})) → Total r → Total t → Total (r >> t)
no_panic (ok u) t h k = k
no_panic (err x) t h k = λ e. cc
no_panic panic t h k = h

pub validate_all-Total : (rs : List (Result (Unit {0}))) → All Total rs → Total (validate_all rs)
unfolding validate_all
validate_all-Total [] h = λ e. cc
validate_all-Total (r ∷ rs) h = no_panic r (validate_all rs) h.0 (validate_all-Total rs h.1)

pub require-Total : (b : Bool) (e : Error) → Total (require b e)
require-Total true e = λ p. cc
require-Total false e = λ p. cc

validate_authen_data-Total : (c : Option ℕ) (s : Bytes) → Total (validate_authen_data c s)
unfolding validate_authen_data
validate_authen_data-Total c s = ground arith

pub checked-Total {ℓ} :
    {A : Type ℓ} (whole : Bool) (valid : Result (Unit {0})) (a : A)
    → Total valid
    → checked whole valid a ≢ panic
checked-Total whole valid a h = ground arith

pub guard-Total {ℓ} :
    {A : Type ℓ} (x : Error) (refused : Bool) (r : Result A)
    → r ≢ panic
    → (if refused then err x else r) ≢ panic
guard-Total x true r h = λ e. cc
guard-Total x false r h = h

validate-start : (a : AuthenStart.AuthenStart) → Total (AuthenStart.validate a)
unfolding AuthenStart.validate validate_authen_action validate_priv_lvl validate_authen_type
    validate_authen_service validate_authen_user validate_authen_port validate_authen_rem_addr
validate-start a = guard-Total _ _ _ (
    validate_all-Total
      (validate_authen_action a.action
        ∷ validate_priv_lvl a.priv_lvl
        ∷ validate_authen_type a.type
        ∷ validate_authen_service a.service
        ∷ validate_authen_user a.user
        ∷ validate_authen_port a.port
        ∷ validate_authen_rem_addr a.rem_addr
        ∷ validate_authen_data (some a.type) a.content
        ∷ [])
      (
        require-Total _ _,
        (
          require-Total _ _,
          (
            require-Total _ _,
            (
              require-Total _ _,
              (
                require-Total _ _,
                (
                  require-Total _ _,
                  (require-Total _ _, (validate_authen_data-Total (some a.type) a.content, tt)),
                ),
              ),
            ),
          ),
        ),
      ))

pub unmarshal_start-total : (s : Bytes) → AuthenStart.unmarshal_binary s ≢ panic
unfolding AuthenStart.unmarshal_binary
unmarshal_start-total s = guard-Total _ _ _ (checked-Total _ _ _ (validate-start _))

pub unmarshal_continue-total : (s : Bytes) → AuthenContinue.unmarshal_binary s ≢ panic
unfolding AuthenContinue.unmarshal_binary AuthenContinue.validate validate_authen_user_message
    validate_all
unmarshal_continue-total s = guard-Total _ _ _ (
    checked-Total _ _ _ (
      no_panic _ _ (require-Total _ _)
        (validate_all-Total (_ ∷ []) (validate_authen_data-Total none _, tt))))
