-- ===== src/Loader/Secrets/Laws.antt =====
-- Which addresses the secret providers know.
use tacquito.Base.{
  inl, inr, ◌≡◌, refl, Bool, false, Bool-cases, if◌then◌else◌, ◌||◌, List, [], ◌∷◌, Bytes, codes,
  Option, Option-cases, none, some, Error,
}
use tacquito.Text.{equals}
use tacquito.Config.{Keychain, SecretConfig, option}
use tacquito.Loader.{known}
use tacquito.Loader.Filter.{Addr, tcp}
use tacquito.Loader.Filter.Laws.{Canonical, covers}
use tacquito.Loader.Secrets.{
  SecretEntry, keychain_add, found, set_prefix_secret, search_prefixes, prefix_get,
  new_prefix_provider,
}
use tacquito.Loader.Secrets.{set_dns_secret, lookup_secret, search_names, dns_get, new_dns_provider}

-- Whether one of the names is among the hosts.
abbrev pub listed : List Bytes → Bytes → Bool
listed [] name = false
listed (host ∷ hosts) name = equals host name || listed hosts name

abbrev pub any_listed : List Bytes → List Bytes → Bool
any_listed hosts [] = false
any_listed hosts (name ∷ names) = listed hosts name || any_listed hosts names

-- The entry of a configuration with a keychain's secret.
abbrev keyed : {H : Type 0} → Keychain → H → SecretEntry H
keyed kc handler = record { secret = keychain_add kc; handler = handler }

found-known :
    {H : Type 0} (kc : Keychain) (handler : H) (key : Bytes)
    → known (found (keyed kc handler) key) ≡ some (kc.key, handler)
unfolding found known keychain_add
found-known kc handler key = refl

module _ {Net Ip H : Type 0} (parse_cidr : Bytes → Option Net) (net_string : Net → Bytes)
    (contains : Net → Ip → Bool) (ip_string : Ip → Bytes)
    (unmarshal_list : Bytes → Option (List Bytes)) where
  search_prefixes-covers :
      Canonical parse_cidr net_string
      → (kc : Keychain) (handler : H) (prefixes : List Bytes) (ip : Ip)
      → known (
          search_prefixes parse_cidr net_string contains ip_string unmarshal_list
            (set_prefix_secret parse_cidr net_string contains ip_string unmarshal_list
              (keyed kc handler)
              prefixes)
            ip)
        ≡ (if covers parse_cidr contains prefixes ip then some (kc.key, handler) else none)
  unfolding search_prefixes set_prefix_secret known
  search_prefixes-covers canonical kc handler [] ip = refl
  search_prefixes-covers canonical kc handler (prefix ∷ prefixes) ip =
      elim (Option-cases (parse_cidr prefix)) [
        | inl bad ↦
            rw (set_prefix_secret, bad) (search_prefixes-covers canonical kc handler prefixes ip)
        | inr (n, good) ↦ elim (Bool-cases (contains n ip)) [
          | inl held ↦
              rw (set_prefix_secret, good, search_prefixes, canonical prefix n good, held)
                (found-known kc handler (ip_string ip))
          | inr out ↦
              rw (set_prefix_secret, good, search_prefixes, canonical prefix n good, out)
                (search_prefixes-covers canonical kc handler prefixes ip)
        ]
      ]

  -- If a prefix that is written out reads as it did, a provider made with some prefixes knows a
  -- TCP address, by the key of its keychain and the handler of its scope, exactly if one of the
  -- prefixes that read holds the address.
  pub new_prefix_provider-covers :
      Canonical parse_cidr net_string
      → (sc : SecretConfig) (handler : H) (kc : Keychain) (prefix : Bytes) (prefixes : List Bytes)
        (ip : Ip)
      → unmarshal_list (option sc.options (codes "prefixes")) ≡ some (prefix ∷ prefixes)
      → (provider : Addr Ip → Option Bytes × Option H × Option Error) × (new_prefix_provider
            parse_cidr net_string contains ip_string unmarshal_list sc handler
            (keychain_add kc)
          ≡ some provider)
        × (known (provider (tcp ip)) ≡ (
            if covers parse_cidr contains (prefix ∷ prefixes) ip
            then some (kc.key, handler)
            else none))
  unfolding new_prefix_provider prefix_get
  new_prefix_provider-covers canonical sc handler kc prefix prefixes ip e = (
    prefix_get parse_cidr net_string contains ip_string unmarshal_list (
        set_prefix_secret parse_cidr net_string contains ip_string unmarshal_list (keyed kc handler)
          (prefix ∷ prefixes)),
    rw (new_prefix_provider, e) refl,
    search_prefixes-covers canonical kc handler (prefix ∷ prefixes) ip,
  )

  module _ (lookup_addr : Bytes → Option (List Bytes)) where
    lookup_secret-listed :
        (kc : Keychain) (handler : H) (hosts : List Bytes) (name : Bytes)
        → lookup_secret (set_dns_secret (keyed kc handler) hosts) name
          ≡ (if listed hosts name then some (keyed kc handler) else none)
    unfolding lookup_secret set_dns_secret
    lookup_secret-listed kc handler [] name = refl
    lookup_secret-listed kc handler (host ∷ hosts) name = elim (Bool-cases (equals host name)) [
      | inl same ↦ rw (set_dns_secret, lookup_secret, same) refl
      | inr other ↦
          rw (set_dns_secret, lookup_secret, other) (lookup_secret-listed kc handler hosts name)
    ]

    search_names-listed :
        (kc : Keychain) (handler : H) (hosts names : List Bytes)
        → known (search_names (set_dns_secret (keyed kc handler) hosts) names)
          ≡ (if any_listed hosts names then some (kc.key, handler) else none)
    unfolding search_names known
    search_names-listed kc handler hosts [] = refl
    search_names-listed kc handler hosts (name ∷ names) = elim (Bool-cases (listed hosts name)) [
      | inl here ↦
          rw (search_names, lookup_secret-listed kc handler hosts name, here)
            (found-known kc handler name)
      | inr off ↦
          rw (search_names, lookup_secret-listed kc handler hosts name, off)
            (search_names-listed kc handler hosts names)
    ]

    -- A provider made with some hosts knows a TCP address, by the key of its keychain and the handler of
    -- its scope, exactly if one of the names of the address is one of the hosts.
    pub new_dns_provider-listed :
        (sc : SecretConfig) (handler : H) (kc : Keychain) (host : Bytes) (hosts names : List Bytes)
        (ip : Ip)
        → unmarshal_list (option sc.options (codes "hosts")) ≡ some (host ∷ hosts)
        → lookup_addr (ip_string ip) ≡ some names
        → (provider : Addr Ip → Option Bytes × Option H × Option Error) × (new_dns_provider
              parse_cidr net_string contains ip_string unmarshal_list lookup_addr sc handler
              (keychain_add kc)
            ≡ some provider)
          × (known (provider (tcp ip))
              ≡ (if any_listed (host ∷ hosts) names then some (kc.key, handler) else none))
    unfolding new_dns_provider dns_get
    new_dns_provider-listed sc handler kc host hosts names ip e l = (
      dns_get parse_cidr net_string contains ip_string unmarshal_list lookup_addr
          (set_dns_secret (keyed kc handler) (host ∷ hosts)),
      rw (new_dns_provider, e) refl,
      rw (dns_get, l) (search_names-listed kc handler (host ∷ hosts) names),
    )
