-- ===== src/Tests/Loading.antt =====
-- The loader, a secret provider, and a client at the loop of a server, on concrete configurations.
use tacquito.Base.{
  ℕ, ◌≡◌, refl, if◌then◌else◌, [], ◌∷◌, List, Bytes, codes, Option, some, none, Error,
}
use tacquito.Text.{equals}
use tacquito.Server.Serve.{finish}
use tacquito.Handlers.{Aaa}
use tacquito.Config.{
  User, Group, Options, option, Authenticator, ServerConfig, SecretConfig, Keychain,
}
use tacquito.Config.Aaa.{Users, no_users, get_user, default_authorizer, default_accounter}
use tacquito.Loader.{Factories, known, build_users, reduce_authenticator_accounter_from_groups}
use tacquito.Loader.Closed.{Source, build_users-FailsClosed}
use tacquito.Base.{◌⊎◌}
use tacquito.Server.Serve.{Script}
use tacquito.Handlers.{Handler}
use tacquito.Server.Response.{Request}
use tacquito.Handlers.{handle, get_password}
use tacquito.Handlers.Denials.{DenyOnly}
use tacquito.Server.Serve.{call_register_writer}
use tacquito.Tests.Toy.{opening}
use tacquito.Loader.Served.{users, Answered, handle-Answered}
use tacquito.Loader.Filter.{Addr, tcp}
use tacquito.Loader.Filter.Laws.{covers}
use tacquito.Loader.Updates.{Event, config, query, initial, run}
use tacquito.Loader.Updates.Laws.{results, refiltered, run-refiltered}
use tacquito.Loader.Secrets.{keychain_add, new_prefix_provider}
use tacquito.Loader.Secrets.Laws.{new_prefix_provider-covers}

-- An authenticator that says nothing, and no other factory.
abbrev factories : Factories (Addr Bytes) ℕ Users Bytes
factories = record {
  authorizer_provider = λ u. none;
  authenticator_types = λ t. some (λ name options. some (λ req. finish));
  accounter_types = λ t. none;
  handler_types = λ t. some (λ users options. 0);
  provider_types = λ t. some (λ sc handler keys. some (λ remote. (some keys, some handler, none)));
  config_provider = λ users. users;
  keychain_add = λ k. k.key;
}

abbrev no_options : Options
no_options name = none

abbrev staff : Group
staff = record {
  name = codes "staff";
  services = [];
  commands = [];
  authenticator = some (record { type = 1; options = no_options });
  accounter = none;
}

abbrev bob : User
bob = record {
  name = codes "bob";
  scopes = codes "lab" ∷ [];
  groups = staff ∷ [];
  services = [];
  commands = [];
  authenticator = none;
  accounter = none;
}

abbrev bob_aaa : Aaa
bob_aaa = record {
  authenticator = λ req. finish;
  authorizer = default_authorizer;
  accounter = default_accounter;
}

bob_built :
    get_user (build_users factories (codes "lab") (bob ∷ []) no_users) (codes "bob") ≡ some bob_aaa
unfolding get_user build_users tacquito.Config.has_scope tacquito.Loader.make_aaa
    reduce_authenticator_accounter_from_groups tacquito.Config.localize_to_scope
    tacquito.Config.Aaa.new_aaa
bob_built = refl

build_users-FailsClosed_example :
    (u : User) × Source factories (codes "lab") (codes "bob") (bob ∷ []) bob_aaa u
build_users-FailsClosed_example =
    build_users-FailsClosed factories (codes "lab") (codes "bob") (bob ∷ []) bob_aaa bob_built

-- The password "pw" of the login of "bob".
abbrev password_request : Request
password_request = record {
  header = record opening { seq_no = 3; len = 7 };
  body = 0 ∷ 2 ∷ 0 ∷ 0 ∷ 0 ∷ 112 ∷ 119 ∷ [];
}

handle-Answered_example :
    DenyOnly (
      handle
        (users factories (codes "lab") (bob ∷ []) (λ n. []))
        (λ n. [])
        (get_password (codes "bob"))
        password_request)
    ⊎ ((script : Script Handler) × (handle
            (users factories (codes "lab") (bob ∷ []) (λ n. []))
            (λ n. [])
            (get_password (codes "bob"))
            password_request
          ≡ call_register_writer script)
        × Answered factories
            (codes "lab")
            (bob ∷ [])
            (λ n. [])
            password_request
            (get_password (codes "bob"))
            script)
handle-Answered_example =
    handle-Answered factories (codes "lab") (bob ∷ []) (λ n. []) (get_password (codes "bob"))
      password_request

abbrev secret_config : SecretConfig
secret_config = record {
  name = codes "lab";
  secret = record { group = []; key = codes "key" };
  handler = record { type = 1; options = no_options };
  type = 1;
  options = λ name. some (codes "here");
}

-- Every address is denied.
abbrev configuration : ServerConfig
configuration = record {
  secrets = secret_config ∷ [];
  users = bob ∷ [];
  prefix_deny = codes "here" ∷ [];
  prefix_allow = [];
}

abbrev events : List (Event Bytes)
events = config configuration ∷ query (tcp (codes "here")) ∷ []

-- A prefix holds the address that it spells.
run-refiltered_example :
    results (run some (λ n. n) equals factories events initial).0
    ≡ results (run some (λ n. n) equals factories (refiltered [] [] events) initial).0
run-refiltered_example = run-refiltered some (λ n. n) equals factories events [] [] initial

new_prefix_provider-covers_example :
    (provider : Addr Bytes → Option Bytes × Option ℕ × Option Error) × (new_prefix_provider some
        (λ n. n)
        equals
        (λ ip. ip)
        (λ s. some (s ∷ []))
        secret_config
        0
        (keychain_add secret_config.secret)
      ≡ some provider)
    × (known (provider (tcp (codes "here"))) ≡ (
        if covers some equals (codes "here" ∷ []) (codes "here")
        then some (codes "key", 0)
        else none))
new_prefix_provider-covers_example =
    new_prefix_provider-covers some (λ n. n) equals (λ ip. ip) (λ s. some (s ∷ []))
      (λ cidr n e. refl) secret_config 0 secret_config.secret (codes "here") [] (codes "here") refl
