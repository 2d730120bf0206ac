-- ===== src/Stringy/Command.antt =====
-- command.go: the authorizer of commands. Regular expressions are a parameter.
pub mod Laws
use tacquito.Base.{
  ℕ, Bool, true, false, not, ◌||◌, ◌==◌, if◌then◌else◌, List, [], ◌∷◌, Bytes, codes, Option, none,
  some,
}
use tacquito.Text.{equals, is_empty}
use tacquito.Author.Args.{Asv, service, command_split, command, command_args}
use tacquito.Config.{Command, permit, trim_command}

-- `NewCommandBasedAuthorizer` gives nil unless the service is a shell and the command is spelled
-- `cmd=` with a value.
unfoldable pub is_command_based : List Bytes → Bool
is_command_based args =
    let split = command_split args in
    if not (equals (service args) (codes "shell"))
    then false
    else if not (equals split.attribute (codes "cmd"))
        || not (equals split.separator (codes "="))
        || equals split.value []
    then false
    else true

-- `returnBool`.
abbrev pub return_bool : ℕ → Bool
return_bool action = action == permit

-- What the loop over the expressions of a command comes to.
pub data Search : Type 0 where
  bad_regex matched exhausted : Search

-- `match_string` is `regexp.MatchString`, with none where the expression does not compile.
module _ (match_string : Bytes → Bytes → Option Bool) where
  search_match : List Bytes → Bytes → Search
  search_match [] s = exhausted
  search_match (regexish ∷ rest) s =
      let later = search_match rest s in
      elim (match_string regexish s) [ none ↦ bad_regex | some true ↦ matched | some false ↦ later ]

  -- A command that was not decided on is followed by the next.
  after_search : Search → ℕ → Bool → Bool
  after_search bad_regex action rest = false
  after_search matched action rest = return_bool action
  after_search exhausted action rest = rest

  evaluate_trimmed : Command → Bytes → Bytes → Bool → Bool
  unfolding search_match after_search
  evaluate_trimmed c cmd args rest =
      if equals c.name (codes "*")
      then return_bool c.action
      else if not (equals c.name cmd)
      then rest
      else if is_empty c.match
      then return_bool c.action
      else after_search (search_match c.match args) c.action rest

  evaluate_commands : List Command → Bytes → Bytes → Bool
  unfolding evaluate_trimmed
  evaluate_commands [] cmd args = false
  evaluate_commands (c ∷ cs) cmd args =
      evaluate_trimmed (trim_command c) cmd args (evaluate_commands cs cmd args)

  -- `CommandBasedAuthorizer.evaluate`, on the user's commands and the arguments of the request.
  unfoldable pub evaluate : List Command → List Bytes → Bool
  unfolding evaluate_commands
  evaluate commands args = evaluate_commands commands (command args) (command_args args)
