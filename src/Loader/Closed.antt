-- ===== src/Loader/Closed.antt =====
-- What a built user's handlers are: made by a factory, or closed.
use tacquito.Base.{◌≡◌, ◌⊎◌, inl, inr, refl, subst, sym, ◌∙◌, true, Bool-cases}
use tacquito.Base.{List, [], ◌∷◌, Bytes, Option, Option-cases, none, some, some-injective}
use mathlib.Core.List.{Memᴰ}
use tacquito.Text.{equals}
use tacquito.Text.Laws.{equals→eq}
use tacquito.Server.Response.{Request}
use tacquito.Server.Serve.{Script}
use tacquito.Handlers.{Handler, Aaa}
use tacquito.Config.{User, Options, Authenticator, Accounter, has_scope, localize_to_scope}
use tacquito.Config.Aaa.{
  no_users, get_user, set_aaa_authenticator, set_aaa_authorizer, set_aaa_accounter,
}
use tacquito.Config.Aaa.{default_authenticator, default_authorizer, default_accounter}
use tacquito.Loader.{
  Factories, build_users, make_aaa, authorizer_option, make_authenticator, authenticator_option,
  accounter_option, reduce_authenticator_accounter_from_groups,
}
use tacquito.Loader.Scoped.{entry_aaa, last_aaa, build_users-last}
use tacquito.Config.Aaa.Laws.{
  Closed, Handle, given, new_aaa-given, or_default-Closed, default_authenticator-Closed,
  default_authorizer-Closed, default_accounter-Closed,
}

module _ {Addr H Provider Keys : Type 0} (f : Factories Addr H Provider Keys) where
  abbrev pub MadeAuthenticator : User → (Request → Script Handler) → Type 0
  MadeAuthenticator u handler =
      (c : Authenticator) × (new : Bytes → Options → Option (Request → Script Handler))
      × (u.authenticator ≡ some c)
      × (f.authenticator_types c.type ≡ some new)
      × (new u.name c.options ≡ some handler)

  abbrev pub MadeAccounter : User → (Request → Script Handler) → Type 0
  MadeAccounter u handler =
      (c : Accounter) × (new : Options → Request → Script Handler) × (u.accounter ≡ some c)
      × (f.accounter_types c.type ≡ some new)
      × (new c.options ≡ handler)

  -- Each of the three is made for the user by a registered factory, or closed.
  abbrev pub FailsClosed : User → Aaa → Type 0
  FailsClosed u a =
      (MadeAuthenticator u a.authenticator ⊎ Closed a.authenticator)
      × ((f.authorizer_provider u ≡ some a.authorizer) ⊎ Closed a.authorizer)
      × (MadeAccounter u a.accounter ⊎ Closed a.accounter)

  authorizer_option-given :
      (u : User) → authorizer_option f u ≡ given set_aaa_authorizer (f.authorizer_provider u)
  unfolding authorizer_option
  authorizer_option-given u = elim (Option-cases (f.authorizer_provider u)) [
    | inl e ↦ rw (authorizer_option, e) refl
    | inr (h, e) ↦ rw (authorizer_option, e) refl
  ]

  accounter_option-given :
      (u : User)
      → (o : Option Handle) × (accounter_option f u.accounter ≡ given set_aaa_accounter o)
        × ((h : Handle) → o ≡ some h → MadeAccounter u h)
  unfolding accounter_option
  accounter_option-given u = elim (Option-cases u.accounter) [
    | inl unset ↦ (none, rw (accounter_option, unset) refl, λ h e. cc)
    | inr (c, e) ↦ elim (Option-cases (f.accounter_types c.type)) [
      | inl unknown ↦ (none, rw (accounter_option, e, unknown) refl, λ h e. cc)
      | inr (new, t) ↦ (
        some (new c.options),
        rw (accounter_option, e, t) refl,
        λ h k. (c, new, e, t, some-injective k),
      )
    ]
  ]

  authenticator_option-given :
      (u : User) (opts : List (Aaa → Aaa))
      → authenticator_option f u.name u.authenticator ≡ some opts
      → (o : Option Handle) × (opts ≡ given set_aaa_authenticator o)
        × ((h : Handle) → o ≡ some h → MadeAuthenticator u h)
  unfolding authenticator_option make_authenticator
  authenticator_option-given u opts made = elim (Option-cases u.authenticator) [
    | inl unset ↦ (none, some-injective (sym (rw (authenticator_option, unset) at made)), λ h e. cc)
    | inr (c, e) ↦ elim (Option-cases (f.authenticator_types c.type)) [
      | inl unknown ↦ (
        none,
        some-injective (sym (rw (authenticator_option, e, make_authenticator, unknown) at made)),
        λ h e. cc,
      )
      | inr (new, t) ↦ elim (Option-cases (new u.name c.options)) [
        | inl failed ↦
            absurd
              (let g = rw (authenticator_option, e, make_authenticator, t, failed) at made in cc)
        | inr (h, done) ↦ (
          some h,
          some-injective (sym (rw (authenticator_option, e, make_authenticator, t, done) at made)),
          λ k g. (c, new, e, t, done ∙ g),
        )
      ]
    ]
  ]

  make_aaa-FailsClosed : (u : User) (a : Aaa) → make_aaa f u ≡ some a → FailsClosed u a
  unfolding make_aaa
  make_aaa-FailsClosed u a made =
      elim (Option-cases (authenticator_option f u.name u.authenticator)) [
        | inl failed ↦ absurd (let g = rw (make_aaa, failed) at made in cc)
        | inr (opts, e) ↦
            let (p, is_p, made_p) = authenticator_option-given u opts e in
            let (q, is_q, made_q) = accounter_option-given u in
            let built =
              some-injective (rw (make_aaa, e, is_p, is_q, authorizer_option-given u) at made) in
            subst (λ x. FailsClosed u x) (sym (new_aaa-given (f.authorizer_provider u) p q) ∙ built)
              (
                or_default-Closed {P = MadeAuthenticator u} default_authenticator p made_p
                    default_authenticator-Closed,
                or_default-Closed {P = λ h. f.authorizer_provider u ≡ some h} default_authorizer
                    (f.authorizer_provider u) (λ h e. e) default_authorizer-Closed,
                or_default-Closed {P = MadeAccounter u} default_accounter q made_q
                    default_accounter-Closed,
              )
      ]

  -- The entry of the configuration that gives a name its handlers in a scope.
  abbrev pub Source : Bytes → Bytes → List User → Aaa → User → Type 0
  Source scope name us a u =
      Memᴰ u us
      × (has_scope u.scopes scope ≡ true)
      × (u.name ≡ name)
      × FailsClosed (reduce_authenticator_accounter_from_groups (localize_to_scope scope u)) a

  entry_aaa-Source :
      (scope name : Bytes) (u : User) (us : List User) (a : Aaa)
      → Memᴰ u us
      → entry_aaa f scope name u ≡ some a
      → Source scope name us a u
  entry_aaa-Source scope name u us a m e = elim (Bool-cases (has_scope u.scopes scope)) [
    | inr out ↦ absurd (let g = rw out at e in cc)
    | inl scoped ↦ elim (Bool-cases (equals u.name name)) [
      | inr other ↦ absurd (let g = rw (scoped, other) at e in cc)
      | inl same ↦
          (m, scoped, equals→eq u.name name same, make_aaa-FailsClosed _ a (rw (scoped, same) at e))
    ]
  ]

  last_aaa-Source :
      (scope name : Bytes) (us : List User) (a : Aaa)
      → last_aaa f scope name us ≡ some a
      → (u : User) × Source scope name us a u
  last_aaa-Source scope name [] a e = absurd (let g : Option.none ≡ some a = e in cc)
  last_aaa-Source scope name (u ∷ us) a e = elim (Option-cases (last_aaa f scope name us)) [
    | inr (b, later) ↦
        let (v, source) = last_aaa-Source scope name us b later in
        let (m, scoped, named, closed) = source in
        let same : b ≡ a = some-injective (rw later at e) in
        (
          v,
          (
            Memᴰ.tail m,
            scoped,
            named,
            subst
                (λ x.
                  FailsClosed
                    (reduce_authenticator_accounter_from_groups (localize_to_scope scope v)) x)
                same closed,
          ),
        )
    | inl none_later ↦
        (u, (entry_aaa-Source scope name u (u ∷ us) a (Memᴰ.head refl) (rw none_later at e)))
  ]

  -- A user that the loader builds for a scope comes from an entry of the configuration with its name and
  -- in the scope. Its authenticator, its authorizer and its accounter are each what a registered
  -- factory made for that entry, or a handler that sends no reply that passes.
  pub build_users-FailsClosed :
      (scope name : Bytes) (us : List User) (a : Aaa)
      → get_user (build_users f scope us no_users) name ≡ some a
      → (u : User) × Source scope name us a u
  build_users-FailsClosed scope name us a e =
      last_aaa-Source scope name us a (sym (build_users-last f scope name us) ∙ e)
