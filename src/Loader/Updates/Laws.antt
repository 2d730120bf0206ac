-- ===== src/Loader/Updates/Laws.antt =====
-- What the answers of the loader depend on.
use tacquito.Base.{Bool, ◌∙◌, ◌≡◌, refl, ap, List, [], ◌∷◌, ◌++◌, Bytes, Option, Result}
use tacquito.Config.{ServerConfig}
use tacquito.Loader.{Factories, SecretProvider, build, get}
use tacquito.Loader.Filter.{Addr}
use tacquito.Loader.Updates.{State, Event, config, query, Answer, load, run}

abbrev pub results : {H : Type 0} → List (Answer H) → List (Result (Bytes × H))
results [] = []
results (a ∷ answers) = a.result ∷ results answers

-- The same events, with the two lists of prefixes of each configuration replaced.
abbrev pub refiltered : {Ip : Type 0} → List Bytes → List Bytes → List (Event Ip) → List (Event Ip)
refiltered deny allow [] = []
refiltered deny allow (config c ∷ events) =
    config (record c { prefix_deny = deny; prefix_allow = allow }) ∷ refiltered deny allow events
refiltered deny allow (query remote ∷ events) = query remote ∷ refiltered deny allow events

abbrev pub queries : {Ip : Type 0} → List (Addr Ip) → List (Event Ip)
queries [] = []
queries (remote ∷ remotes) = query remote ∷ queries remotes

abbrev pub get_each :
    {Ip H : Type 0} → List (SecretProvider (Addr Ip) H) → List (Addr Ip) → List (Result (Bytes × H))
get_each providers [] = []
get_each providers (remote ∷ remotes) = get providers remote ∷ get_each providers remotes

module _ {Net Ip H Provider Keys : Type 0} (parse_cidr : Bytes → Option Net)
    (net_string : Net → Bytes) (contains : Net → Ip → Bool)
    (f : Factories (Addr Ip) H Provider Keys) where
  run-same_providers :
      (events : List (Event Ip)) (deny allow : List Bytes) (s t : State Ip H)
      → s.providers ≡ t.providers
      → results (run parse_cidr net_string contains f events s).0
        ≡ results (run parse_cidr net_string contains f (refiltered deny allow events) t).0
  unfolding run load build
  run-same_providers [] deny allow s t e = refl
  run-same_providers (config c ∷ events) deny allow s t e =
      run-same_providers events deny allow _ _ refl
  run-same_providers (query remote ∷ events) deny allow s t e =
      ap
        (λ providers.
          get providers remote ∷ results (run parse_cidr net_string contains f events s).0)
        e
      ∙ ap (λ rest. get t.providers remote ∷ rest) (run-same_providers events deny allow s t e)

  run-queries :
      (remotes : List (Addr Ip)) (s : State Ip H)
      → results (run parse_cidr net_string contains f (queries remotes) s).0
        ≡ get_each s.providers remotes
  unfolding run
  run-queries [] s = refl
  run-queries (remote ∷ remotes) s =
      ap (λ rest. get s.providers remote ∷ rest) (run-queries remotes s)

  -- Whatever the prefixes of the deny and the allow filters, in every configuration that is loaded, the
  -- answers to the queries of a sequence of events are the same.
  pub run-refiltered :
      (events : List (Event Ip)) (deny allow : List Bytes) (s : State Ip H)
      → results (run parse_cidr net_string contains f events s).0
        ≡ results (run parse_cidr net_string contains f (refiltered deny allow events) s).0
  run-refiltered events deny allow s = run-same_providers events deny allow s s refl

  -- The queries after a configuration is loaded, and before the next one is, are each answered from the
  -- providers of that configuration, whatever came before.
  pub run-last_config :
      (before : List (Event Ip)) (c : ServerConfig) (remotes : List (Addr Ip)) (s : State Ip H)
      → results (run parse_cidr net_string contains f (before ++ (config c ∷ queries remotes)) s).0
        ≡ results (run parse_cidr net_string contains f before s).0 ++ get_each (build f c) remotes
  unfolding run load
  run-last_config [] c remotes s = run-queries remotes _
  run-last_config (config b ∷ before) c remotes s = run-last_config before c remotes _
  run-last_config (query remote ∷ before) c remotes s =
      ap (λ rest. get s.providers remote ∷ rest) (run-last_config before c remotes s)
