-- ===== src/Loader/Filter.antt =====
-- prefix_filter.go, and the prefixes of loader.go. What package net makes of a prefix is a parameter.
pub mod Laws
use tacquito.Base.{
  Bool, true, false, not, ◌||◌, if◌then◌else◌, List, [], ◌∷◌, Bytes, Option, none, some,
}

-- `net.Addr`: only the TCP ones are known to the filters.
pub data Addr (Ip : Type 0) : Type 0 where
  tcp : Ip → Addr Ip
  other : Addr Ip

module _ {Net Ip : Type 0} (parse_cidr : Bytes → Option Net) (net_string : Net → Bytes)
    (contains : Net → Ip → Bool) where
  unfoldable pub str_to_ip_net : List Bytes → List Net
  str_to_ip_net [] = []
  str_to_ip_net (cidr ∷ prefixes) = elim (parse_cidr cidr) [
    | none ↦ str_to_ip_net prefixes
    | some n ↦ n ∷ str_to_ip_net prefixes
  ]

  -- The keys of `known`; a key that is there twice is no matter.
  unfoldable pub new_prefix_filter : List Net → List Bytes
  new_prefix_filter [] = []
  new_prefix_filter (n ∷ nets) = net_string n ∷ new_prefix_filter nets

  -- `prefixFilter.match`.
  unfoldable pub match_prefix : List Bytes → Ip → Bool
  match_prefix [] ip = false
  match_prefix (cidr ∷ known) ip =
      (elim (parse_cidr cidr) [ none ↦ false | some n ↦ contains n ip ]) || match_prefix known ip

  unfoldable pub deny : List Bytes → Addr Ip → Bool
  deny [] remote = false
  deny (cidr ∷ known) other = true
  deny (cidr ∷ known) (tcp ip) = match_prefix (cidr ∷ known) ip

  unfoldable pub allow : List Bytes → Addr Ip → Bool
  allow [] remote = true
  allow (cidr ∷ known) other = false
  allow (cidr ∷ known) (tcp ip) = match_prefix (cidr ∷ known) ip
