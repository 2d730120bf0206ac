-- ===== src/Loader/Filter/Laws.antt =====
-- What the filters say of an address, by the prefixes that they were given.
use tacquito.Base.{
  inl, inr, ◌≡◌, ◌≢◌, refl, ap, ◌∙◌, Bool, false, ◌||◌, List, [], ◌∷◌, Bytes, Option, Option-cases,
  none, some,
}
use tacquito.Loader.Filter.{tcp, str_to_ip_net, new_prefix_filter, match_prefix, deny, allow}

-- A prefix that is written by `net_string` reads as it did.
abbrev pub Canonical : {Net : Type 0} → (Bytes → Option Net) → (Net → Bytes) → Type 0
Canonical {Net = Net} parse_cidr net_string =
    (cidr : Bytes) (n : Net) → parse_cidr cidr ≡ some n → parse_cidr (net_string n) ≡ some n

-- Whether one of the prefixes that read holds the address.
abbrev pub covers :
    {Net Ip : Type 0} → (Bytes → Option Net) → (Net → Ip → Bool) → List Bytes → Ip → Bool
covers parse_cidr contains [] ip = false
covers parse_cidr contains (cidr ∷ prefixes) ip =
    (elim (parse_cidr cidr) [ none ↦ false | some n ↦ contains n ip ])
    || covers parse_cidr contains prefixes ip

module _ {Net Ip : Type 0} (parse_cidr : Bytes → Option Net) (net_string : Net → Bytes)
    (contains : Net → Ip → Bool) (canonical : Canonical parse_cidr net_string) where
  abbrev filter : List Bytes → List Bytes
  filter prefixes =
      new_prefix_filter parse_cidr net_string contains
        (str_to_ip_net parse_cidr net_string contains prefixes)

  match_prefix-covers :
      (prefixes : List Bytes) (ip : Ip)
      → match_prefix parse_cidr net_string contains (filter prefixes) ip
        ≡ covers parse_cidr contains prefixes ip
  unfolding match_prefix new_prefix_filter str_to_ip_net
  match_prefix-covers [] ip = refl
  match_prefix-covers (cidr ∷ prefixes) ip = elim (Option-cases (parse_cidr cidr)) [
    | inl bad ↦ rw (str_to_ip_net, bad) (match_prefix-covers prefixes ip)
    | inr (n, good) ↦
        rw (str_to_ip_net, good, new_prefix_filter, match_prefix, canonical cidr n good)
          (ap (λ rest. contains n ip || rest) (match_prefix-covers prefixes ip))
  ]

  deny-match :
      (known : List Bytes) (ip : Ip)
      → deny parse_cidr net_string contains known (tcp ip)
        ≡ match_prefix parse_cidr net_string contains known ip
  unfolding deny match_prefix
  deny-match [] ip = refl
  deny-match (cidr ∷ known) ip = refl

  allow-match :
      (known : List Bytes) (ip : Ip)
      → known ≢ []
      → allow parse_cidr net_string contains known (tcp ip)
        ≡ match_prefix parse_cidr net_string contains known ip
  unfolding allow match_prefix
  allow-match [] ip h = absurd (h refl)
  allow-match (cidr ∷ known) ip h = refl

  -- The deny filter of some prefixes logs a TCP address exactly if one of the prefixes that read holds
  -- it; so does the allow filter let it by, if any of its prefixes reads.
  pub deny-covers :
      (prefixes : List Bytes) (ip : Ip)
      → (deny parse_cidr net_string contains (filter prefixes) (tcp ip)
          ≡ covers parse_cidr contains prefixes ip)
        × (filter prefixes ≢ []
            → allow parse_cidr net_string contains (filter prefixes) (tcp ip)
              ≡ covers parse_cidr contains prefixes ip)
  deny-covers prefixes ip = (
    deny-match (filter prefixes) ip ∙ match_prefix-covers prefixes ip,
    λ h. allow-match (filter prefixes) ip h ∙ match_prefix-covers prefixes ip,
  )
