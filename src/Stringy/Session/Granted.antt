-- ===== src/Stringy/Session/Granted.antt =====
-- What one service gives to a session that names it.
use tacquito.Base.{
  ◌≡◌, ◌↔◌, ◌⊎◌, inl, inr, refl, sym, ap, subst, ◌∙◌, Bool, true, false, not, ◌&&◌, Bool-cases,
}
use tacquito.Base.{List, [], ◌∷◌, ◌++◌, Bytes, Option, none, some, some-injective, All}
use mathlib.Core.List.{Memᴰ}
use mathlib.Core.List.Memᴰ
use tacquito.Text.{equals, is_empty}
use tacquito.Text.Laws.{equals→eq, equals_refl, equals-ne, is_empty→eq}
use tacquito.Author.Args.{asv}
use tacquito.Config.{Value, Service, value_string}
use tacquito.Stringy.Session.{kvs, all_equal, matches_value, service_matcher, collate_avps, modify}
use tacquito.Stringy.Session.{service_matcher_modifier}

-- Each condition's attribute is among the arguments, and its last value is each of the condition's.
abbrev Satisfied : List Bytes → List Value → Type 0
Satisfied args ms =
    All (λ m. (v : Bytes) × (kvs args m.name ≡ some v) × All (λ w. v ≡ w) m.values) ms

-- The text is that of a value of the service, an argument names the service by its attribute or its
-- value, and the service's conditions are satisfied.
pub data Granted (args : List Bytes) (s : Service) : Bytes → Type 0 where
  granted :
      {avp : Bytes} {v : Value}
      → Memᴰ avp args
      → ((asv avp).attribute ≡ s.name) ⊎ ((asv avp).value ≡ s.name)
      → Satisfied args s.match
      → Memᴰ v s.set_values
      → Granted args s (value_string v)

all_equal_iff : (v : Bytes) (vs : List Bytes) → (all_equal v vs ≡ true) ↔ All (λ w. v ≡ w) vs
unfolding all_equal
all_equal_iff v [] = (λ h. tt, λ h. refl)
all_equal_iff v (w ∷ vs) = elim (Bool-cases (equals v w)) [
  | inl same ↦ (
    λ h. (equals→eq v w same, (all_equal_iff v vs).0 (rw same at h)),
    λ h. rw same ((all_equal_iff v vs).1 h.1),
  )
  | inr other ↦ (
    λ h. absurd (let h2 = rw other at h in cc),
    λ h. absurd (let h2 = rw (h.0, equals_refl w) at other in cc),
  )
]

and_iff : (a b : Bool) → ((a && b) ≡ true) ↔ ((a ≡ true) × (b ≡ true))
and_iff true b = (λ h. (refl, h), λ h. h.1)
and_iff false b = (λ h. cc, λ h. h.0)

matches_value_iff :
    (o : Option Bytes) (vs : List Bytes)
    → (matches_value o vs ≡ true) ↔ ((v : Bytes) × (o ≡ some v) × All (λ w. v ≡ w) vs)
unfolding matches_value
matches_value_iff none vs = (λ h. cc, λ h. absurd (let h2 = h.1 in cc))
matches_value_iff (some v) vs = (
  λ h. (v, refl, (all_equal_iff v vs).0 h),
  λ (w, e, all). (all_equal_iff v vs).1 (rw (some-injective e) all),
)

service_matcher_iff :
    (args : List Bytes) (ms : List Value) → (service_matcher args ms ≡ true) ↔ Satisfied args ms
unfolding service_matcher matches_value
service_matcher_iff args [] = (λ h. tt, λ h. refl)
service_matcher_iff args (m ∷ ms) =
    let both = and_iff (matches_value (kvs args m.name) m.values) (service_matcher args ms) in
    let first = matches_value_iff (kvs args m.name) m.values in
    let others = service_matcher_iff args ms in
    (λ h. (first.0 (both.0 h).0, others.0 (both.0 h).1), λ h. both.1 (first.1 h.0, others.1 h.1))

mem-collate_avps :
    (vs : List Value) (x : Bytes)
    → Memᴰ x (collate_avps vs).0 ↔ ((v : Value) × Memᴰ v vs × (value_string v ≡ x))
unfolding collate_avps
mem-collate_avps [] x = (λ m. absurd (Memᴰ.not-nil m), λ h. absurd (Memᴰ.not-nil h.1))
mem-collate_avps (v ∷ vs) x = (
  λ m. elim (Memᴰ.cases_cons m) [
    | inl e ↦ (v, Memᴰ.head refl, sym e)
    | inr later ↦ let (w, found, e) = (mem-collate_avps vs x).0 later in (w, Memᴰ.tail found, e)
  ],
  λ (w, found, e). elim (Memᴰ.cases_cons found) [
    | inl same ↦ Memᴰ.head (sym e ∙ ap value_string same)
    | inr later ↦ Memᴰ.tail ((mem-collate_avps vs x).1 (w, later, e))
  ],
)

-- An argument names a service by its attribute or by its value.
abbrev Names : Bytes → Bytes → Type 0
Names avp name = ((asv avp).attribute ≡ name) ⊎ ((asv avp).value ≡ name)

module _ (args : List Bytes) (c : Service) where
  named_or_not :
      (avp : Bytes)
      → (Names avp c.name
          × ((not (equals (asv avp).attribute c.name) && not (equals (asv avp).value c.name))
              ≡ false))
        ⊎ ((equals (asv avp).attribute c.name ≡ false) × (equals (asv avp).value c.name ≡ false))
  named_or_not avp = elim (Bool-cases (equals (asv avp).attribute c.name)) [
    | inl a ↦ inl (inl (equals→eq (asv avp).attribute c.name a), rw a refl)
    | inr not_a ↦ elim (Bool-cases (equals (asv avp).value c.name)) [
      | inl v ↦ inl (inr (equals→eq (asv avp).value c.name v), rw (not_a, v) refl)
      | inr not_v ↦ inr (not_a, not_v)
    ]
  ]

  -- What one round of the loop adds.
  modify-step :
      (avp : Bytes) (rest : List Bytes)
      → (Names avp c.name
          × Satisfied args c.match
          × ((modify args c (avp ∷ rest)).0
              ≡ (collate_avps c.set_values).0 ++ (modify args c rest).0))
        ⊎ ((Names avp c.name → Satisfied args c.match → ⊥)
            × ((modify args c (avp ∷ rest)).0 ≡ (modify args c rest).0))
  unfolding modify
  modify-step avp rest = elim (named_or_not avp) [
    | inr (no_attribute, no_value) ↦
        let unnamed : Names avp c.name → ⊥ =
          λ n. elim n [ inl e ↦ equals-ne _ _ no_attribute e | inr e ↦ equals-ne _ _ no_value e ] in
        inr (λ n s. unnamed n, rw (no_attribute, no_value) refl)
    | inl (named, tested) ↦ elim (Bool-cases (is_empty c.match)) [
      | inl empty ↦
          let satisfied : Satisfied args c.match = rw (is_empty→eq c.match empty) tt in
          inl (named, satisfied, rw (tested, empty) refl)
      | inr given ↦ elim (Bool-cases (service_matcher args c.match)) [
        | inl matches ↦
            inl (
              named,
              (service_matcher_iff args c.match).0 matches,
              rw (tested, given, matches) refl,
            )
        | inr fails ↦ inr (
          λ n s. (let h = (service_matcher_iff args c.match).1 s in let h2 = sym fails ∙ h in cc),
          rw (tested, given, fails) refl,
        )
      ]
    ]
  ]

  -- The loop gives the values of the service, if an argument names it and its conditions hold.
  mem-modify :
      (rest : List Bytes) (x : Bytes)
      → Memᴰ x (modify args c rest).0 ↔ (
          ((avp : Bytes) × Memᴰ avp rest × Names avp c.name)
          × Satisfied args c.match
          × Memᴰ x (collate_avps c.set_values).0)
  unfolding modify
  mem-modify [] x = (λ m. absurd (Memᴰ.not-nil m), λ h. absurd (Memᴰ.not-nil h.0.1))
  mem-modify (avp ∷ rest) x = elim (modify-step avp rest) [
    | inl (named, satisfied, e) ↦ (
      λ m. elim (Memᴰ.append_cases (collate_avps c.set_values).0 (subst (λ l. Memᴰ x l) e m)) [
        | inl now ↦ ((avp, Memᴰ.head refl, named), satisfied, now)
        | inr later ↦
            let ((a, found, n), s, y) = (mem-modify rest x).0 later in
            ((a, Memᴰ.tail found, n), s, y)
      ],
      λ h. subst (λ l. Memᴰ x l) (sym e) (Memᴰ.append_left (modify args c rest).0 h.2),
    )
    | inr (not_both, e) ↦ (
      λ m.
          let ((a, found, n), s, y) = (mem-modify rest x).0 (subst (λ l. Memᴰ x l) e m) in
          ((a, Memᴰ.tail found, n), s, y),
      λ ((a, found, n), s, y). elim (Memᴰ.cases_cons found) [
        | inl same ↦ absurd (not_both (rw same at n) s)
        | inr later ↦ subst (λ l. Memᴰ x l) (sym e) ((mem-modify rest x).1 ((a, later, n), s, y))
      ],
    )
  ]

Granted-mem :
    (args : List Bytes) (c : Service) {x : Bytes}
    → Granted args c x
    → Memᴰ x (service_matcher_modifier args c).0
unfolding service_matcher_modifier
Granted-mem args c (granted {avp = avp} {v = v} found named satisfied is_value) =
    (mem-modify args c args (value_string v)).1 (
      (avp, found, named),
      satisfied,
      (mem-collate_avps c.set_values (value_string v)).1 (v, is_value, refl),
    )

pub mem-service_matcher_modifier :
    (args : List Bytes) (c : Service) (x : Bytes)
    → Memᴰ x (service_matcher_modifier args c).0 ↔ Granted args c x
unfolding service_matcher_modifier
mem-service_matcher_modifier args c x = (
  λ m.
      let ((avp, found, named), satisfied, y) = (mem-modify args c args x).0 m in
      let (v, is_value, e) = (mem-collate_avps c.set_values x).0 y in
      subst (λ z. Granted args c z) e (granted found named satisfied is_value),
  λ g. Granted-mem args c g,
)
