-- ===== src/Loader/Secrets.antt =====
-- cmds/server/config/secret: keychain.go and the prefix and DNS secret providers. Parsing of prefixes
-- and of JSON lists, and the lookup of names, are parameters; a map is a list whose first entry for a
-- key counts, and `Get` of the prefix provider takes its entries in the order of the list.
pub mod Laws
use tacquito.Base.{
  Bool, true, false, if◌then◌else◌, List, [], ◌∷◌, Bytes, codes, Option, none, some, Error,
  no_secret_provider,
}
use tacquito.Text.{equals}
use tacquito.Config.{Keychain, SecretConfig, option}
use tacquito.Loader.{SecretProvider}
use tacquito.Loader.Filter.{Addr, tcp, other}

-- `Keychain.Add`: the key itself, whoever asks.
unfoldable pub keychain_add : Keychain → Bytes → Option Bytes × Option Error
keychain_add kc username = (some kc.key, none)

-- `secretConfig`.
pub record SecretEntry (H : Type 0) : Type 0 where
  pub secret : Bytes → Option Bytes × Option Error
  pub handler : H

abbrev pub no_match : {H : Type 0} → Option Bytes × Option H × Option Error
no_match = (none, none, some no_secret_provider)

unfoldable pub found : {H : Type 0} → SecretEntry H → Bytes → Option Bytes × Option H × Option Error
found c key = let (secret, e) = c.secret key in (secret, some c.handler, e)

unfoldable pub set_dns_secret :
    {H : Type 0} → SecretEntry H → List Bytes → List (Bytes × SecretEntry H)
set_dns_secret c [] = []
set_dns_secret c (host ∷ hosts) = (host, c) ∷ set_dns_secret c hosts

unfoldable pub lookup_secret :
    {H : Type 0} → List (Bytes × SecretEntry H) → Bytes → Option (SecretEntry H)
lookup_secret [] name = none
lookup_secret (entry ∷ secrets) name =
    if equals entry.0 name then some entry.1 else lookup_secret secrets name

-- The loop over the names of the address.
unfoldable pub search_names :
    {H : Type 0}
    → List (Bytes × SecretEntry H)
    → List Bytes
    → Option Bytes × Option H × Option Error
search_names secrets [] = no_match
search_names secrets (name ∷ names) =
    let rest = search_names secrets names in
    elim (lookup_secret secrets name) [ some c ↦ found c name | none ↦ rest ]

module _ {Net Ip H : Type 0} (parse_cidr : Bytes → Option Net) (net_string : Net → Bytes)
    (contains : Net → Ip → Bool) (ip_string : Ip → Bytes)
    (unmarshal_list : Bytes → Option (List Bytes)) where
  unfoldable pub set_prefix_secret : SecretEntry H → List Bytes → List (Bytes × SecretEntry H)
  set_prefix_secret c [] = []
  set_prefix_secret c (prefix ∷ prefixes) = elim (parse_cidr prefix) [
    | none ↦ set_prefix_secret c prefixes
    | some n ↦ (net_string n, c) ∷ set_prefix_secret c prefixes
  ]

  -- The loop of `Provider.Get` over its secrets, and its branch on the kind of address.
  unfoldable pub search_prefixes :
      List (Bytes × SecretEntry H) → Ip → Option Bytes × Option H × Option Error
  search_prefixes [] ip = no_match
  search_prefixes (entry ∷ secrets) ip = elim (parse_cidr entry.0) [
    | none ↦ search_prefixes secrets ip
    | some n ↦
        let rest = search_prefixes secrets ip in
        if contains n ip then found entry.1 (ip_string ip) else rest
  ]

  unfoldable pub prefix_get : List (Bytes × SecretEntry H) → SecretProvider (Addr Ip) H
  prefix_get secrets other = no_match
  prefix_get secrets (tcp ip) = search_prefixes secrets ip

  abbrev pub prefix_list : SecretEntry H → Option (List Bytes) → Option (SecretProvider (Addr Ip) H)
  prefix_list c none = none
  prefix_list c (some []) = none
  prefix_list c (some (prefix ∷ prefixes)) =
      some (prefix_get (set_prefix_secret c (prefix ∷ prefixes)))

  -- `Provider.New` of the prefix provider.
  unfoldable pub new_prefix_provider :
      SecretConfig → H → (Bytes → Option Bytes × Option Error) → Option (SecretProvider (Addr Ip) H)
  new_prefix_provider sc handler secret =
      prefix_list (record { secret = secret; handler = handler })
        (unmarshal_list (option sc.options (codes "prefixes")))

  module _ (lookup_addr : Bytes → Option (List Bytes)) where
    unfoldable pub dns_get : List (Bytes × SecretEntry H) → SecretProvider (Addr Ip) H
    dns_get secrets other = no_match
    dns_get secrets (tcp ip) = elim (lookup_addr (ip_string ip)) [
      | none ↦ no_match
      | some names ↦ search_names secrets names
    ]

    abbrev pub host_list : SecretEntry H → Option (List Bytes) → Option (SecretProvider (Addr Ip) H)
    host_list c none = none
    host_list c (some []) = none
    host_list c (some (host ∷ hosts)) = some (dns_get (set_dns_secret c (host ∷ hosts)))

    -- `Provider.New` of the DNS provider.
    unfoldable pub new_dns_provider :
        SecretConfig
        → H
        → (Bytes → Option Bytes × Option Error)
        → Option (SecretProvider (Addr Ip) H)
    new_dns_provider sc handler secret =
        host_list (record { secret = secret; handler = handler })
          (unmarshal_list (option sc.options (codes "hosts")))
