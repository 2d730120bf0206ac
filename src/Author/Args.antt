-- ===== src/Author/Args.antt =====
-- authorize_fields.go: the operations on `Arg` and `Args`, the attribute-value pairs of a client. The
-- conversions between `Arg` and `string` are left out.
pub mod Laws
use tacquito.Base.{
  ℕ, Bool, true, false, ◌||◌, ◌==◌, if◌then◌else◌, List, [], ◌∷◌, ◌++◌, Bytes, codes,
}
use tacquito.Text.{equals, trim_space, join, Cut, cut, uncut, index_any}

-- What `ASV` returns: the attribute, the separator and the value; all are empty if there is none.
pub record Asv : Type 0 where
  pub attribute : Bytes
  pub separator : Bytes
  pub value : Bytes

abbrev pub is_separator : ℕ → Bool
is_separator c = c == b'=' || c == b'*'

abbrev pub no_asv : Asv
no_asv = record { attribute = []; separator = []; value = [] }

abbrev pub asv_of : Cut → Asv
asv_of (cut before found after) = record {
  attribute = before;
  separator = found ∷ [];
  value = after;
}
asv_of uncut = no_asv

-- `Arg.ASV`, on the text without white space around it.
unfoldable pub asv : Bytes → Asv
asv arg = asv_of (index_any is_separator (trim_space arg))

-- `Args.Service`: the value of the first `service`.
unfoldable pub service : List Bytes → Bytes
service [] = []
service (arg ∷ args) =
    if equals (asv arg).attribute (codes "service") then (asv arg).value else service args

-- `Args.CommandSplit`: the first pair with the attribute `cmd`.
unfoldable pub command_split : List Bytes → Asv
command_split [] = no_asv
command_split (arg ∷ args) =
    if equals (asv arg).attribute (codes "cmd") then asv arg else command_split args

unfoldable pub command : List Bytes → Bytes
command [] = []
command (arg ∷ args) =
    if equals (asv arg).attribute (codes "cmd") then (asv arg).value else command args

command_arg_values : List Bytes → List Bytes
command_arg_values [] = []
command_arg_values (arg ∷ args) =
    let rest = command_arg_values args in
    if equals (asv arg).attribute (codes "cmd-arg") then (asv arg).value ∷ rest else rest

-- `Args.CommandArgs`.
unfoldable pub command_args : List Bytes → Bytes
unfolding command_arg_values
command_args args = join (codes " ") (command_arg_values args)

-- Whether a text is a key of the map `seen`.
unfoldable pub seen_in : Bytes → List Bytes → Bool
seen_in s [] = false
seen_in s (t ∷ seen) = equals s t || seen_in s seen

unique_from : List Bytes → List Bytes → List Bytes
unfolding seen_in
unique_from seen [] = []
unique_from seen (arg ∷ args) =
    let later = unique_from seen args in
    let kept = arg ∷ unique_from (trim_space arg ∷ seen) args in
    if seen_in (trim_space arg) seen then later else kept

-- `Args.Unique`: the first argument of each text.
unfoldable pub unique : List Bytes → List Bytes
unfolding unique_from
unique args = unique_from [] args

-- `for _, arg := range … { args = append(args, arg.String()) }`.
unfoldable pub strings : List Bytes → List Bytes
strings [] = []
strings (arg ∷ args) = trim_space arg ∷ strings args

-- `Args.Args`.
unfoldable pub args_of : List Bytes → List Bytes
args_of args = strings (unique args)

-- `Args.Append`.
unfoldable pub append_args : List Bytes → List Bytes → List Bytes
append_args t args = t ++ args
