-- ===== src/Loader/Updates.antt =====
-- loader.go: the loop of `updates`, which owns the providers and the filters. An event is what one turn
-- receives; the order of the events is the order in which `select` takes them.
pub mod Laws
use tacquito.Base.{Bool, true, false, not, List, [], ◌∷◌, Bytes, Option, Result}
use tacquito.Config.{ServerConfig}
use tacquito.Loader.{Factories, SecretProvider, build, get}
use tacquito.Loader.Filter.{Addr, str_to_ip_net, new_prefix_filter, deny, allow}

-- The variables of the loop; `warm` says that the channel of the same name is closed.
pub record State (Ip H : Type 0) : Type 0 where
  pub providers : List (SecretProvider (Addr Ip) H)
  pub prefix_deny : List Bytes
  pub prefix_allow : List Bytes
  pub warm : Bool

pub data Event (Ip : Type 0) : Type 0 where
  config : ServerConfig → Event Ip
  query : Addr Ip → Event Ip

-- What a query gives: whether each of the two filters logged the address, and the answer.
pub record Answer (H : Type 0) : Type 0 where
  pub denied : Bool
  pub not_allowed : Bool
  pub result : Result (Bytes × H)

unfoldable pub initial : {Ip H : Type 0} → State Ip H
initial = record { providers = []; prefix_deny = []; prefix_allow = []; warm = false }

module _ {Net Ip H Provider Keys : Type 0} (parse_cidr : Bytes → Option Net)
    (net_string : Net → Bytes) (contains : Net → Ip → Bool)
    (f : Factories (Addr Ip) H Provider Keys) where
  create_prefix_filter : List Bytes → List Bytes
  create_prefix_filter prefixes =
      new_prefix_filter parse_cidr net_string contains
        (str_to_ip_net parse_cidr net_string contains prefixes)

  unfoldable pub load : ServerConfig → State Ip H → State Ip H
  unfolding create_prefix_filter
  load c s = record {
    providers = build f c;
    prefix_deny = create_prefix_filter c.prefix_deny;
    prefix_allow = create_prefix_filter c.prefix_allow;
    warm = true;
  }

  unfoldable pub answer : Addr Ip → State Ip H → Answer H
  answer remote s = record {
    denied = deny parse_cidr net_string contains s.prefix_deny remote;
    not_allowed = not (allow parse_cidr net_string contains s.prefix_allow remote);
    result = get s.providers remote;
  }

  -- The answers of the loop to the queries of a sequence of events, and the state that it leaves.
  unfoldable pub run : List (Event Ip) → State Ip H → List (Answer H) × State Ip H
  unfolding load answer
  run [] s = ([], s)
  run (config c ∷ events) s = run events (load c s)
  run (query remote ∷ events) s =
      let (answers, last) = run events s in (answer remote s ∷ answers, last)
