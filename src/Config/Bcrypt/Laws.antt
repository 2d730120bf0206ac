-- ===== src/Config/Bcrypt/Laws.antt =====
-- When a bcrypt authenticator lets a password pass.
use tacquito.Base.{
  ◌≡◌, ◌≢◌, ◌⊎◌, inl, inr, refl, sym, ap, ◌∙◌, arith, Bool, true, false, ◌==◌, Bool-cases,
  if◌then◌else◌,
}
use tacquito.Authen.Total.{unmarshal_start-total, unmarshal_continue-total}
use tacquito.Base.{
  length, Bytes, codes, Option, none, some, Error, Result, Result-cases, ok, err, panic, ne→==,
  ok-injective, bind-eq-ok,
}
use tacquito.Server.Response.{Request}
use tacquito.Server.Serve.{Script}
use tacquito.Authen.Start as AuthenStart
use tacquito.Authen.Continue as AuthenContinue
use tacquito.Handlers.{Handler}
use tacquito.Handlers.Denials.{DenyOnly}
use tacquito.Config.{Options, option}
use tacquito.Config.Bcrypt.{
  Authenticator, get_password, get_continue_password, decode_string, new_authenticator,
  new_supported_options, validate, login_success,
}
use tacquito.Config.Bcrypt.{compare_password, check_hash, check_keychain, check_password, handle}

guard-ok {ℓ} :
    {A : Type ℓ} (x : Error) {a b : A} (refuse : Bool) (e : (if refuse then err x else ok a) ≡ ok b)
    → a ≡ b
guard-ok x true e = cc
guard-ok x false e = ok-injective e

module _ (compare : Bytes → Bytes → Bool) where
  -- The request has a password, and it is the one of the hash, in hexadecimal.
  abbrev pub Verified : Bytes → Request → Type 0
  Verified hash req =
      (password : Bytes) × (expected : Bytes) × (get_password req ≡ ok password)
      × (decode_string hash ≡ some expected)
      × (compare expected password ≡ true)

  check_hash-cases :
      (o : Option Bytes) (password : Bytes)
      → (((expected : Bytes) × ((o ≡ some expected) × (compare expected password ≡ true)))
          × (check_hash compare o password ≡ login_success))
        ⊎ ((((expected : Bytes) × ((o ≡ some expected) × (compare expected password ≡ true))) → ⊥)
            × DenyOnly (check_hash compare o password))
  unfolding check_hash compare_password
  check_hash-cases none password = inr (λ v. (let e = v.1.0 in cc), (omega arith, λ r. tt))
  check_hash-cases (some expected) password = elim (Bool-cases (compare expected password)) [
    | inl same ↦ inl ((expected, (refl, same)), rw same refl)
    | inr other ↦ inr (λ v. (let e = v.1.0 in let s = v.1.1 in cc), rw other (omega arith, λ r. tt))
  ]

  refuted :
      (a : Authenticator) (req : Request) (password : Bytes)
      → get_password req ≡ ok password
      → (((expected : Bytes) × ((decode_string a.hash ≡ some expected)
              × (compare expected password ≡ true)))
          → ⊥)
      → Verified a.hash req
      → ⊥
  refuted a req password e other (p, h, given, decoded, same) =
      let q : password ≡ p = ok-injective (sym e ∙ given) in other (h, (decoded, rw q same))

  unproved :
      (a : Authenticator) (req : Request) (x : Error)
      → get_password req ≡ err x
      → Verified a.hash req
      → ⊥
  unproved a req x e (p, h, given, d, s) = let f = sym e ∙ given in cc

  check_password-cases :
      (a : Authenticator) (req : Request) (m : Result Bytes)
      → get_password req ≡ m
      → m ≢ panic
      → length a.hash ≢ 0
      → (Verified a.hash req × (check_password compare a m ≡ ok login_success))
        ⊎ ((Verified a.hash req → ⊥)
            × (script : Script Handler) × (check_password compare a m ≡ ok script)
            × DenyOnly script)
  unfolding check_password
  check_password-cases a req panic e total hashed = absurd (total refl)
  check_password-cases a req (err x) e total hashed =
      inr (unproved a req x e, _, refl, (omega arith, λ r. tt))
  check_password-cases a req (ok password) e total hashed =
      let n = ne→== (length a.hash) 0 hashed in
      elim (check_hash-cases (decode_string a.hash) password) [
        | inl ((expected, (decoded, same)), passes) ↦
            inl ((password, expected, e, decoded, same), rw (n, passes) refl)
        | inr (other, denies) ↦ inr (
          refuted a req password e other,
          check_hash compare (decode_string a.hash) password,
          rw n refl,
          denies,
        )
      ]

  new_authenticator-hash :
      (username : Bytes) (options : Options) (a : Authenticator)
      → new_authenticator username options ≡ ok a
      → (a.hash ≡ option options (codes "hash")) × (a.get_secret ≡ none)
  unfolding new_authenticator new_supported_options
  new_authenticator-hash username options a e =
      let (u, checked, made) = bind-eq-ok (validate (new_supported_options username options)) _ e in
      let same = ok-injective made in
      (ap (λ x. x.hash) (sym same), ap (λ x. x.get_secret) (sym same))

  check_keychain-panic :
      (a : Authenticator) (password : Bytes)
      → a.get_secret ≡ none
      → check_keychain compare a a.get_secret password ≡ panic
  unfolding check_keychain
  check_keychain-panic a password e = rw (check_keychain, e) refl

  get_password-total : (req : Request) → get_password req ≢ panic
  unfolding get_password get_continue_password
  get_password-total req = elim (Result-cases (AuthenStart.unmarshal_binary req.body)) [
    | inl (body, e) ↦ rw (get_password, e) (λ f. cc)
    | inr (inr e) ↦ absurd (unmarshal_start-total req.body e)
    | inr (inl (x, e)) ↦ elim (Result-cases (AuthenContinue.unmarshal_binary req.body)) [
      | inl (body, f) ↦ rw (get_password, e, get_continue_password, f) (λ g. cc)
      | inr (inl (y, f)) ↦ rw (get_password, e, get_continue_password, f) (λ g. cc)
      | inr (inr f) ↦ absurd (unmarshal_continue-total req.body f)
    ]
  ]

  -- An authenticator made with a hash among its options either finds that the password of the request
  -- is the one of the hash and replies once, that it passes, or finds that it is not, or that there is
  -- none, and sends no reply that does. It never panics.
  pub new_authenticator-Verified :
      (username : Bytes) (options : Options) (a : Authenticator) (req : Request)
      → new_authenticator username options ≡ ok a
      → length (option options (codes "hash")) ≢ 0
      → (Verified (option options (codes "hash")) req × (handle compare a req ≡ ok login_success))
        ⊎ ((Verified (option options (codes "hash")) req → ⊥)
            × (script : Script Handler) × (handle compare a req ≡ ok script)
            × DenyOnly script)
  unfolding handle
  new_authenticator-Verified username options a req made given =
      let same = (new_authenticator-hash username options a made).0 in
      rw (← same) (
        check_password-cases a req (get_password req) refl (get_password-total req) (rw same given))

  -- An authenticator made without a hash panics at every request that has a password: the keychain is
  -- never handed to it.
  pub new_authenticator-panic :
      (username : Bytes) (options : Options) (a : Authenticator) (req : Request) (password : Bytes)
      → new_authenticator username options ≡ ok a
      → length (option options (codes "hash")) ≡ 0
      → get_password req ≡ ok password
      → handle compare a req ≡ panic
  unfolding handle check_password
  new_authenticator-panic username options a req password made bare given =
      let (same, unset) = new_authenticator-hash username options a made in
      let empty : (length a.hash == 0) ≡ true = rw (same, bare) refl in
      rw (given, empty) (check_keychain-panic a password unset)
