-- ===== src/Stringy/Session.antt =====
-- session.go: the authorizer of sessions.
pub mod Granted
pub mod Laws
use tacquito.Base.{
  ℕ, Bool, true, false, not, ◌&&◌, ◌||◌, if◌then◌else◌, List, [], ◌∷◌, ◌++◌, Bytes, codes, Option,
  none, some,
}
use tacquito.Text.{equals, is_empty}
use tacquito.Fields.Author.{author_status_pass_add, author_status_pass_repl}
use tacquito.Author.Args.{Asv, asv, args_of, append_args}
use tacquito.Config.{Value, Service, User, value_string, trim_service, get_localized_scope}

-- The map `kvs` of the arguments: a later value replaces an earlier one.
unfoldable pub kvs : List Bytes → Bytes → Option Bytes
kvs [] name = none
kvs (arg ∷ args) name = elim (kvs args name) [
  | some v ↦ some v
  | none ↦ if equals name (asv arg).attribute then some (asv arg).value else none
]

-- `for _, v := range m.Values { if argV != v { return false } }`.
all_equal : Bytes → List Bytes → Bool
all_equal arg_v [] = true
all_equal arg_v (v ∷ vs) = equals arg_v v && all_equal arg_v vs

matches_value : Option Bytes → List Bytes → Bool
unfolding all_equal
matches_value none vs = false
matches_value (some arg_v) vs = all_equal arg_v vs

unfoldable pub service_matcher : List Bytes → List Value → Bool
unfolding matches_value
service_matcher args [] = true
service_matcher args (m ∷ matchers) =
    matches_value (kvs args m.name) m.values && service_matcher args matchers

-- `collateAVPs`: the texts of the values, and whether one of them is optional.
unfoldable pub collate_avps : List Value → List Bytes × Bool
collate_avps [] = ([], false)
collate_avps (v ∷ vs) =
    let (unfiltered, optional) = collate_avps vs in
    (value_string v ∷ unfiltered, v.optional || optional)

-- The loop over the arguments; those not yet seen are the last argument.
modify : List Bytes → Service → List Bytes → List Bytes × Bool
modify args c [] = ([], false)
modify args c (avp ∷ rest) =
    let p = asv avp in
    let (avps, optional) = modify args c rest in
    let (unfiltered, is_optional) = collate_avps c.set_values in
    let starred = not (equals p.attribute (codes "cmd")) && equals p.separator (codes "*") in
    if not (equals p.attribute c.name) && not (equals p.value c.name)
    then (avps, optional)
    else if is_empty c.match
    then (unfiltered ++ avps, starred || is_optional || optional)
    else if service_matcher args c.match
    then (unfiltered ++ avps, starred || is_optional || optional)
    else (avps, starred || optional)

unfoldable pub service_matcher_modifier : List Bytes → Service → List Bytes × Bool
unfolding modify
service_matcher_modifier args c = modify args c args

-- The loop over the services, which appends to the response and raises the status.
unfoldable pub evaluate_services : List Bytes → List Service → List Bytes → ℕ → List Bytes × ℕ
evaluate_services args [] response status = (response, status)
evaluate_services args (s ∷ services) response status =
    let (matched, optional) = service_matcher_modifier args (trim_service s) in
    evaluate_services args services (append_args response matched)
      (if optional then author_status_pass_repl else status)

-- The arguments of the request, with the user's scope behind them.
abbrev pub request_args : User → List Bytes → List Bytes
request_args u args = args_of (args ++ (get_localized_scope u.scopes ∷ []))

-- `SessionBasedAuthorizer.evaluate`.
unfoldable pub evaluate : User → List Bytes → List Bytes × ℕ
evaluate u args =
    let (response, status) =
      evaluate_services (request_args u args) u.services [] author_status_pass_add in
    (args_of response, status)
