-- ===== src/Loader/Scoped.antt =====
-- The users of a scope, and what decides for them.
use tacquito.Base.{
  ◌≡◌, inl, inr, refl, ap, ◌∙◌, Bool, true, false, not, ◌&&◌, Bool-cases, if◌then◌else◌,
}
use tacquito.Base.{List, [], ◌∷◌, Bytes, Option, none, some}
use tacquito.Text.{equals}
use tacquito.Config.{User, has_scope, localize_to_scope}
use tacquito.Handlers.{Aaa}
use tacquito.Config.Aaa.{Users, no_users, add_user, get_user}
use tacquito.Loader.Reduced.{or_else_assoc}
use tacquito.Loader.{
  Factories, or_else, make_aaa, add_scoped, build_users, reduce_authenticator_accounter_from_groups,
}

module _ {Addr H Provider Keys : Type 0} (f : Factories Addr H Provider Keys)
    (scope name : Bytes) where
  -- The handlers that one entry of the configuration gives the name, in the scope.
  abbrev pub entry_aaa : User → Option Aaa
  entry_aaa u =
      if has_scope u.scopes scope && equals u.name name
      then make_aaa f (reduce_authenticator_accounter_from_groups (localize_to_scope scope u))
      else none

  -- Those of the last entry that gives any.
  abbrev pub last_aaa : List User → Option Aaa
  last_aaa [] = none
  last_aaa (u ∷ us) = or_else (last_aaa us) (entry_aaa u)

  add_entry :
      (scoped : Bool) (m : Option Aaa) (username : Bytes) (users : Users)
      → get_user
          (if not scoped
            then users
            else elim m [ none ↦ users | some a ↦ add_user username a users ])
          name
        ≡ or_else (if scoped && equals username name then m else none) (get_user users name)
  unfolding get_user
  add_entry false m username users = refl
  add_entry true none username users = elim (Bool-cases (equals username name)) [
    | inl same ↦ rw (get_user, same) refl
    | inr other ↦ rw (get_user, other) refl
  ]
  add_entry true (some a) username users = elim (Bool-cases (equals username name)) [
    | inl same ↦ rw (get_user, same) refl
    | inr other ↦ rw (get_user, other) refl
  ]

  build_users-onto :
      (us : List User) (users : Users)
      → get_user (build_users f scope us users) name ≡ or_else (last_aaa us) (get_user users name)
  unfolding build_users add_scoped
  build_users-onto [] users = refl
  build_users-onto (u ∷ us) users =
      build_users-onto us (add_scoped f scope u users)
      ∙ (ap (or_else (last_aaa us)) (
            add_entry (has_scope u.scopes scope)
              (make_aaa f (reduce_authenticator_accounter_from_groups (localize_to_scope scope u)))
              u.name users)
          ∙ or_else_assoc (last_aaa us) (entry_aaa u) (get_user users name))

  or_else-none : (o : Option Aaa) → or_else o none ≡ o
  or_else-none none = refl
  or_else-none (some a) = refl

  -- The users built for a scope have, under a name, the handlers of its last entry that is in the scope
  -- and whose authenticator is made, and none if there is no such entry.
  pub build_users-last :
      (us : List User) → get_user (build_users f scope us no_users) name ≡ last_aaa us
  unfolding get_user
  build_users-last us = build_users-onto us no_users ∙ or_else-none (last_aaa us)
