-- ===== src/Loader/Reduced.antt =====
-- Which authenticator and accounter a user ends up with.
use tacquito.Base.{
  inl, inr, ◌∙◌, ◌≡◌, refl, true, false, ◌&&◌, Bool-cases, List, [], ◌∷◌, Option, none, some,
}
use tacquito.Config.{User, Group, Authenticator, Accounter}
use tacquito.Loader.{
  is_some, or_else, apply_group, reduce_groups, reduce_authenticator_accounter_from_groups,
}

-- The first that a group has.
unfoldable pub first_authenticator : List Group → Option Authenticator
first_authenticator [] = none
first_authenticator (g ∷ groups) = or_else g.authenticator (first_authenticator groups)

unfoldable pub first_accounter : List Group → Option Accounter
first_accounter [] = none
first_accounter (g ∷ groups) = or_else g.accounter (first_accounter groups)

pub or_else_assoc :
    {A : Type 0} (a b c : Option A) → or_else a (or_else b c) ≡ or_else (or_else a b) c
or_else_assoc none b c = refl
or_else_assoc (some a) b c = refl

or_else-none : {A : Type 0} (a : Option A) → or_else a none ≡ a
or_else-none none = refl
or_else-none (some a) = refl

settled-left :
    {A B : Type 0} (a : Option A) (b : Option B) (o : Option A)
    → (is_some a && is_some b) ≡ true
    → or_else a o ≡ a
settled-left none b o e = absurd (let f : false ≡ true = e in cc)
settled-left (some a) b o e = refl

settled-right :
    {A B : Type 0} (a : Option A) (b : Option B) (o : Option B)
    → (is_some a && is_some b) ≡ true
    → or_else b o ≡ b
settled-right none b o e = absurd (let f : false ≡ true = e in cc)
settled-right (some a) none o e = absurd (let f : false ≡ true = e in cc)
settled-right (some a) (some b) o e = refl

abbrev pub reduced : List Group → User → User
reduced groups u = record u {
  authenticator = or_else u.authenticator (first_authenticator groups);
  accounter = or_else u.accounter (first_accounter groups);
}

reduce_groups_lem : (groups : List Group) (u : User) → reduce_groups groups u ≡ reduced groups u
unfolding reduce_groups apply_group first_authenticator first_accounter
reduce_groups_lem [] u = rw (or_else-none u.authenticator, or_else-none u.accounter) refl
reduce_groups_lem (g ∷ groups) u =
    let a = or_else u.authenticator g.authenticator in
    let b = or_else u.accounter g.accounter in
    let deeper : reduced groups (apply_group g u) ≡ reduced (g ∷ groups) u =
      rw (or_else_assoc u.authenticator g.authenticator (first_authenticator groups)) rw
        (or_else_assoc u.accounter g.accounter (first_accounter groups)) refl in
    elim (Bool-cases (is_some a && is_some b)) [
      | inl settled ↦
          let early : apply_group g u ≡ reduced (g ∷ groups) u =
            rw (settled-left a b (first_authenticator groups) settled) at rw
              (settled-right a b (first_accounter groups) settled) at deeper in
          rw settled early
      | inr on ↦ rw on (reduce_groups_lem groups (apply_group g u) ∙ deeper)
    ]

-- A user keeps the authenticator and the accounter that it has; in place of one that it lacks it gets
-- that of the first of its groups that has one, though the loop over the groups may end before.
pub reduce_authenticator_accounter_from_groups_lem :
    (u : User) → reduce_authenticator_accounter_from_groups u ≡ reduced u.groups u
unfolding reduce_authenticator_accounter_from_groups
reduce_authenticator_accounter_from_groups_lem u =
    elim (Bool-cases (is_some u.authenticator && is_some u.accounter)) [
      | inl settled ↦
          rw
            (
              settled,
              settled-left u.authenticator u.accounter (first_authenticator u.groups) settled,
              settled-right u.authenticator u.accounter (first_accounter u.groups) settled,
            )
            refl
      | inr open_user ↦ rw open_user (reduce_groups_lem u.groups u)
    ]
