-- ===== src/Config.antt =====
-- cmds/server/config/types.go: users, groups, services and commands. A `[]string` is a list of texts,
-- a nil pointer is none, and a map of options is a function that has none on a missing key.
pub mod Aaa
pub mod Bcrypt
pub mod Accounting
use tacquito.Base.{
  ℕ, Bool, true, false, ◌||◌, if◌then◌else◌, List, [], ◌∷◌, ◌++◌, Bytes, codes, Option, none, some,
}
use tacquito.Text.{equals, trim_space, join}

abbrev pub deny : ℕ
deny = 1

abbrev pub permit : ℕ
permit = 2

abbrev pub bcrypt : ℕ
bcrypt = 1

abbrev pub Options : Type 0
Options = Bytes → Option Bytes

-- `options[key]`, empty if there is no such key.
abbrev pub option : Options → Bytes → Bytes
option options key = elim (options key) [ none ↦ [] | some v ↦ v ]

pub record Value : Type 0 where
  pub name : Bytes
  pub values : List Bytes
  pub optional : Bool

pub record Service : Type 0 where
  pub name : Bytes
  pub match : List Value
  pub set_values : List Value
  pub optional : Bool

pub record Command : Type 0 where
  pub name : Bytes
  pub match : List Bytes
  pub action : ℕ

pub record Authenticator : Type 0 where
  pub type : ℕ
  pub options : Options

pub record Accounter : Type 0 where
  pub name : Bytes
  pub type : ℕ
  pub options : Options

pub record Group : Type 0 where
  pub name : Bytes
  pub services : List Service
  pub commands : List Command
  pub authenticator : Option Authenticator
  pub accounter : Option Accounter

pub record User : Type 0 where
  pub name : Bytes
  pub scopes : List Bytes
  pub groups : List Group
  pub services : List Service
  pub commands : List Command
  pub authenticator : Option Authenticator
  pub accounter : Option Accounter

pub record Keychain : Type 0 where
  pub group : Bytes
  pub key : Bytes

-- `Handler` of the configuration.
pub record HandlerConfig : Type 0 where
  pub type : ℕ
  pub options : Options

pub record SecretConfig : Type 0 where
  pub name : Bytes
  pub secret : Keychain
  pub handler : HandlerConfig
  pub type : ℕ
  pub options : Options

pub record ServerConfig : Type 0 where
  pub secrets : List SecretConfig
  pub users : List User
  pub prefix_deny : List Bytes
  pub prefix_allow : List Bytes

-- `User.HasScope`.
unfoldable pub has_scope : List Bytes → Bytes → Bool
has_scope [] scope = false
has_scope (s ∷ scopes) scope = equals scope s || has_scope scopes scope

unfoldable pub localize_to_scope : Bytes → User → User
localize_to_scope scope u = record u { scopes = scope ∷ [] }

-- `User.GetLocalizedScope`, on the user's scopes.
unfoldable pub get_localized_scope : List Bytes → Bytes
get_localized_scope [] = codes "scope=no-scope-set"
get_localized_scope (scope ∷ scopes) = codes "scope=" ++ scope

unfoldable pub trim_service : Service → Service
trim_service s = record s { name = trim_space s.name }

trim_all : List Bytes → List Bytes
trim_all [] = []
trim_all (m ∷ ms) = trim_space m ∷ trim_all ms

unfoldable pub trim_value : Value → Value
unfolding trim_all
trim_value v = record v { name = trim_space v.name; values = trim_all v.values }

unfoldable pub trim_command : Command → Command
unfolding trim_all
trim_command c = record c { name = trim_space c.name; match = trim_all c.match }

-- `Value.String`.
unfoldable pub value_string : Value → Bytes
value_string v =
    v.name ++ ((if v.optional then codes "*" else codes "=") ++ join (codes " ") v.values)
