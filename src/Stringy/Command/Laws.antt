-- ===== src/Stringy/Command/Laws.antt =====
-- The loops of `evaluate` against a description of which command decides.
use tacquito.Base.{◌≡◌, ◌≢◌, ◌↔◌, ◌⊎◌, inl, inr, refl, Bool, true, false, Bool-cases, ==→eq, eq→==}
use tacquito.Base.{List, [], ◌∷◌, Bytes, codes, Option, none, some, All, Option-cases, ◌∙◌, ap, sym}
use tacquito.Text.{equals, is_empty}
use tacquito.Text.Laws.{
  equals→eq, equals_refl, equals-ne, ne→equals, ne→is_empty, is_empty→eq, is_empty-ne,
}
use tacquito.Author.Args.{command, command_args}
use tacquito.Config.{Command, permit, trim_command}
use tacquito.Stringy.Command.{
  return_bool, bad_regex, matched, exhausted, search_match, after_search,
}
use tacquito.Stringy.Command.{evaluate_trimmed, evaluate_commands, evaluate}

module _ (match_string : Bytes → Bytes → Option Bool) (cmd args : Bytes) where
  -- Some expression matches, and those before it compile.
  pub data FirstMatch : List Bytes → Type 0 where
    hit : {r : Bytes} {rs : List Bytes} → match_string r args ≡ some true → FirstMatch (r ∷ rs)
    skip :
        {r : Bytes} {rs : List Bytes}
        → match_string r args ≡ some false
        → FirstMatch rs
        → FirstMatch (r ∷ rs)

  -- The command speaks of the request: of all requests, of all with its name, or of this one.
  pub data Decides (c : Command) : Type 0 where
    any : c.name ≡ codes "*" → Decides c
    unconditional : c.name ≡ cmd → c.match ≡ [] → Decides c
    conditional : c.name ≡ cmd → FirstMatch c.match → Decides c

  -- The command has another name, or its expressions compile and none matches.
  pub data Passes (c : Command) : Type 0 where
    other_name : c.name ≢ codes "*" → c.name ≢ cmd → Passes c
    no_match :
        c.name ≢ codes "*"
        → c.match ≢ []
        → All (λ r. match_string r args ≡ some false) c.match
        → Passes c

  -- The first command that speaks of the request permits it.
  pub data Permits : List Command → Type 0 where
    here :
        {c : Command} {cs : List Command}
        → Decides (trim_command c)
        → c.action ≡ permit
        → Permits (c ∷ cs)
    later :
        {c : Command} {cs : List Command} → Passes (trim_command c) → Permits cs → Permits (c ∷ cs)

  search_match-FirstMatch :
      {rs : List Bytes} → FirstMatch rs → search_match match_string rs args ≡ matched
  unfolding search_match
  search_match-FirstMatch (hit e) = rw (search_match, e) refl
  search_match-FirstMatch (skip e h) = rw (search_match, e) (search_match-FirstMatch h)

  FirstMatch-ne : {rs : List Bytes} → FirstMatch rs → rs ≢ []
  FirstMatch-ne (hit e) h = absurd (let h2 = h in cc)
  FirstMatch-ne (skip e m) h = absurd (let h2 = h in cc)

  search_match-none :
      (rs : List Bytes)
      → All (λ r. match_string r args ≡ some false) rs
      → search_match match_string rs args ≡ exhausted
  unfolding search_match
  search_match-none [] h = refl
  search_match-none (r ∷ rs) h = rw (search_match, h.0) (search_match-none rs h.1)

  match_string-cases :
      (r : Bytes)
      → (match_string r args ≡ none)
        ⊎ ((match_string r args ≡ some true) ⊎ (match_string r args ≡ some false))
  match_string-cases r = elim (Option-cases (match_string r args)) [
    | inl bad ↦ inl bad
    | inr (b, e) ↦ elim (Bool-cases b) [
      | inl sure ↦ inr (inl (e ∙ ap some sure))
      | inr not_sure ↦ inr (inr (e ∙ ap some not_sure))
    ]
  ]

  search_match-cases :
      (rs : List Bytes)
      → FirstMatch rs
        ⊎ (All (λ r. match_string r args ≡ some false) rs
            ⊎ (search_match match_string rs args ≡ bad_regex))
  unfolding search_match
  search_match-cases [] = inr (inl tt)
  search_match-cases (r ∷ rs) = elim (match_string-cases r) [
    | inl bad ↦ inr (inr (rw (search_match, bad) refl))
    | inr (inl sure) ↦ inl (hit sure)
    | inr (inr no_hit) ↦ elim (search_match-cases rs) [
      | inl found ↦ inl (skip no_hit found)
      | inr (inl all) ↦ inr (inl (no_hit, all))
      | inr (inr bad) ↦ inr (inr (rw (search_match, no_hit) bad))
    ]
  ]

  module _ (c : Command) (rest : Bool) where
    evaluate_trimmed-Decides :
        Decides c → evaluate_trimmed match_string c cmd args rest ≡ return_bool c.action
    unfolding evaluate_trimmed
    evaluate_trimmed-Decides d = elim (Bool-cases (equals c.name (codes "*"))) [
      | inl star ↦ rw star refl
      | inr plain ↦ elim d [
        | any e ↦ absurd (let e2 = rw (e, equals_refl (codes "*")) at plain in cc)
        | unconditional e none_given ↦ rw (plain, e, equals_refl cmd, none_given) refl
        | conditional e found ↦
            rw
              (
                plain,
                e,
                equals_refl cmd,
                ne→is_empty c.match (FirstMatch-ne found),
                search_match-FirstMatch found,
              )
              refl
      ]
    ]

    evaluate_trimmed-Passes : Passes c → evaluate_trimmed match_string c cmd args rest ≡ rest
    unfolding evaluate_trimmed after_search
    evaluate_trimmed-Passes (other_name plain other) =
        rw (ne→equals c.name (codes "*") plain, ne→equals c.name cmd other) refl
    evaluate_trimmed-Passes (no_match plain given none_matches) =
        elim (Bool-cases (equals c.name cmd)) [
          | inl same ↦
              rw
                (
                  ne→equals c.name (codes "*") plain,
                  same,
                  ne→is_empty c.match given,
                  search_match-none c.match none_matches,
                )
                refl
          | inr other ↦ rw (ne→equals c.name (codes "*") plain, other) refl
        ]

    evaluate_trimmed-cases :
        Decides c ⊎ (Passes c ⊎ (evaluate_trimmed match_string c cmd args rest ≡ false))
    unfolding evaluate_trimmed after_search
    evaluate_trimmed-cases = elim (Bool-cases (equals c.name (codes "*"))) [
      | inl star ↦ inl (any (equals→eq c.name (codes "*") star))
      | inr plain ↦ elim (Bool-cases (equals c.name cmd)) [
        | inr other ↦
            inr (inl (other_name (equals-ne c.name (codes "*") plain) (equals-ne c.name cmd other)))
        | inl same ↦ elim (Bool-cases (is_empty c.match)) [
          | inl empty ↦ inl (unconditional (equals→eq c.name cmd same) (is_empty→eq c.match empty))
          | inr given ↦ elim (search_match-cases c.match) [
            | inl found ↦ inl (conditional (equals→eq c.name cmd same) found)
            | inr (inl none_matches) ↦ inr (
                inl (
                  no_match (equals-ne c.name (codes "*") plain) (is_empty-ne c.match given)
                    none_matches))
            | inr (inr bad) ↦ inr (inr (rw (plain, same, given, bad) refl))
          ]
        ]
      ]
    ]

  Permits-evaluate :
      {cs : List Command} → Permits cs → evaluate_commands match_string cs cmd args ≡ true
  unfolding evaluate_commands trim_command
  Permits-evaluate (here {c = c} {cs = cs} decides permits) =
      evaluate_trimmed-Decides (trim_command c) (evaluate_commands match_string cs cmd args) decides
      ∙ eq→== c.action permit permits
  Permits-evaluate (later {c = c} {cs = cs} passes p) =
      evaluate_trimmed-Passes (trim_command c) (evaluate_commands match_string cs cmd args) passes
      ∙ Permits-evaluate p

  evaluate-Permits_from :
      (cs : List Command) → evaluate_commands match_string cs cmd args ≡ true → Permits cs
  unfolding evaluate_commands trim_command
  evaluate-Permits_from [] h = cc
  evaluate-Permits_from (c ∷ cs) h =
      let rest = evaluate_commands match_string cs cmd args in
      elim (evaluate_trimmed-cases (trim_command c) rest) [
        | inl decides ↦ here decides (
            ==→eq c.action permit
              (sym (evaluate_trimmed-Decides (trim_command c) rest decides) ∙ h))
        | inr (inl passes) ↦ later passes (
            evaluate-Permits_from cs
              (sym (evaluate_trimmed-Passes (trim_command c) rest passes) ∙ h))
        | inr (inr bad) ↦ absurd (let h2 = sym bad ∙ h in cc)
      ]

pub evaluate-Permits :
    (match_string : Bytes → Bytes → Option Bool) (commands : List Command) (request : List Bytes)
    → (evaluate match_string commands request ≡ true)
      ↔ Permits match_string (command request) (command_args request) commands
unfolding evaluate
evaluate-Permits match_string commands request = (
  evaluate-Permits_from match_string (command request) (command_args request) commands,
  λ p. Permits-evaluate match_string (command request) (command_args request) p,
)
