-- ===== src/Loader.antt =====
-- cmds/server/loader/loader.go: how a configuration becomes the users of each scope and the secret
-- providers of a server. The registered factories are parameters; a nil map entry is none, and a
-- factory that returns an error gives none.
pub mod Filter
pub mod Updates
pub mod Secrets
pub mod Reduced
pub mod Scoped
pub mod Closed
pub mod Served
use tacquito.Base.{ℕ, Bool, true, false, not, ◌&&◌, if◌then◌else◌, List, [], ◌∷◌, ◌++◌, Bytes}
use tacquito.Base.{Option, none, some, Error, Result, ok, err, no_secret_provider}
use tacquito.Server.Response.{Request}
use tacquito.Server.Serve.{Script}
use tacquito.Handlers.{Handler, Aaa}
use tacquito.Config.{
  User, Group, Options, SecretConfig, Keychain, ServerConfig, has_scope, localize_to_scope,
  Authenticator, Accounter,
}
use tacquito.Config.Aaa.{
  set_aaa_authenticator, set_aaa_authorizer, set_aaa_accounter, new_aaa, Users, no_users, add_user,
}

abbrev pub is_some : {A : Type 0} → Option A → Bool
is_some none = false
is_some (some a) = true

abbrev pub or_else : {A : Type 0} → Option A → Option A → Option A
or_else none o = o
or_else (some a) o = some a

-- One turn of the loop over the groups.
unfoldable pub apply_group : Group → User → User
apply_group g u = record u {
  authenticator = or_else u.authenticator g.authenticator;
  accounter = or_else u.accounter g.accounter;
}

unfoldable pub reduce_groups : List Group → User → User
unfolding apply_group
reduce_groups [] u = u
reduce_groups (g ∷ groups) u =
    let v = apply_group g u in
    let rest = reduce_groups groups v in
    if is_some v.authenticator && is_some v.accounter then v else rest

-- `reduceAuthenticatorAccounterFromGroups`.
unfoldable pub reduce_authenticator_accounter_from_groups : User → User
unfolding reduce_groups
reduce_authenticator_accounter_from_groups u =
    if is_some u.authenticator && is_some u.accounter then u else reduce_groups u.groups u

-- `Get` of a secret provider: the secret, the handler and the error, each of which may be nil.
abbrev pub SecretProvider : Type 0 → Type 0 → Type 0
SecretProvider Addr H = Addr → Option Bytes × Option H × Option Error

-- What is registered with the loader. A keychain gives the function that fetches a secret.
pub record Factories (Addr H Provider Keys : Type 0) : Type 1 where
  pub authorizer_provider : User → Option (Request → Script Handler)
  pub authenticator_types : ℕ → Option (Bytes → Options → Option (Request → Script Handler))
  pub accounter_types : ℕ → Option (Options → Request → Script Handler)
  pub handler_types : ℕ → Option (Provider → Options → H)
  pub provider_types : ℕ → Option (SecretConfig → H → Keys → Option (SecretProvider Addr H))
  pub config_provider : Users → Provider
  pub keychain_add : Keychain → Keys

module _ {Addr H Provider Keys : Type 0} (f : Factories Addr H Provider Keys) where
  authorizer_option : User → List (Aaa → Aaa)
  authorizer_option u = elim (f.authorizer_provider u) [
    | none ↦ []
    | some a ↦ set_aaa_authorizer a ∷ []
  ]

  -- None where the user is skipped.
  make_authenticator :
      Bytes
      → Options
      → Option (Bytes → Options → Option (Request → Script Handler))
      → Option (List (Aaa → Aaa))
  make_authenticator name options none = some []
  make_authenticator name options (some new) = elim (new name options) [
    | none ↦ none
    | some a ↦ some (set_aaa_authenticator a ∷ [])
  ]

  authenticator_option : Bytes → Option Authenticator → Option (List (Aaa → Aaa))
  unfolding make_authenticator
  authenticator_option name none = some []
  authenticator_option name (some a) =
      make_authenticator name a.options (f.authenticator_types a.type)

  accounter_option : Option Accounter → List (Aaa → Aaa)
  accounter_option none = []
  accounter_option (some a) = elim (f.accounter_types a.type) [
    | none ↦ []
    | some new ↦ set_aaa_accounter (new a.options) ∷ []
  ]

  -- The handlers of a user, where its authenticator is not refused.
  unfoldable pub make_aaa : User → Option Aaa
  unfolding authorizer_option authenticator_option accounter_option
  make_aaa u = elim (authenticator_option u.name u.authenticator) [
    | none ↦ none
    | some opts ↦ some (new_aaa (authorizer_option u ++ (opts ++ accounter_option u.accounter)))
  ]

  -- One turn of the loop over the users; the last entry for a name counts.
  unfoldable pub add_scoped : Bytes → User → Users → Users
  add_scoped scope u users =
      if not (has_scope u.scopes scope)
      then users
      else elim (make_aaa
          (reduce_authenticator_accounter_from_groups (localize_to_scope scope u))) [
            | none ↦ users
            | some a ↦ add_user u.name a users
          ]

  unfoldable pub build_users : Bytes → List User → Users → Users
  unfolding add_scoped
  build_users scope [] users = users
  build_users scope (u ∷ us) users = build_users scope us (add_scoped scope u users)

  make_provider :
      SecretConfig
      → H
      → Option (SecretConfig → H → Keys → Option (SecretProvider Addr H))
      → Option (SecretProvider Addr H)
  make_provider sc handler none = none
  make_provider sc handler (some new) = new sc handler (f.keychain_add sc.secret)

  -- None where the scope is skipped.
  make_scope :
      SecretConfig → Users → Option (Provider → Options → H) → Option (SecretProvider Addr H)
  unfolding make_provider
  make_scope sc [] new = none
  make_scope sc (u ∷ users) none = none
  make_scope sc (u ∷ users) (some new) =
      make_provider sc (new (f.config_provider (u ∷ users)) sc.handler.options)
        (f.provider_types sc.type)

  unfoldable pub build_scope : List User → SecretConfig → Option (SecretProvider Addr H)
  unfolding make_scope
  build_scope us sc =
      make_scope sc (build_users sc.name us no_users) (f.handler_types sc.handler.type)

  build_scopes : List User → List SecretConfig → List (SecretProvider Addr H)
  unfolding build_scope
  build_scopes us [] = []
  build_scopes us (sc ∷ scs) = elim (build_scope us sc) [
    | none ↦ build_scopes us scs
    | some p ↦ p ∷ build_scopes us scs
  ]

  unfoldable pub build : ServerConfig → List (SecretProvider Addr H)
  unfolding build_scopes
  build c = build_scopes c.users c.secrets

-- Whether a provider knows the address: a secret, a handler and no error.
unfoldable pub known : {H : Type 0} → Option Bytes × Option H × Option Error → Option (Bytes × H)
known (some secret, some handler, none) = some (secret, handler)
known (some secret, some handler, some e) = none
known (some secret, none, e) = none
known (none, handler, e) = none

-- `Loader.get`: the first provider that knows the address.
unfoldable pub get : {Addr H : Type 0} → List (SecretProvider Addr H) → Addr → Result (Bytes × H)
get [] remote = err no_secret_provider
get (p ∷ providers) remote =
    let rest = get providers remote in
    elim (known (p remote)) [ some found ↦ ok found | none ↦ rest ]
