-- ===== src/Author/Args/Laws.antt =====
-- `ASV` splits at the first separator, and `Args` drops the repetitions and nothing else.
use tacquito.Base.{ℕ, ◌≡◌, ◌≢◌, ◌↔◌, ◌⊎◌, inl, inr, refl, true, false, Bool-cases}
use tacquito.Base.{List, [], ◌∷◌, ◌++◌, Bytes, All}
use mathlib.Core.List.{Memᴰ}
use mathlib.Core.List.Memᴰ
use tacquito.Text.{trim_space, equals, Cut, cut, uncut, index_any}
use tacquito.Text.Laws.{IsCut, index_any-IsCut, equals→eq, equals_refl}
use tacquito.Author.Args.{
  Asv, asv, asv_of, no_asv, is_separator, seen_in, unique, unique_from, strings, args_of,
}

-- The pair is what the trimmed text spells, cut at its first separator; it is empty if there is none.
abbrev pub Spells : Bytes → Asv → Type 0
Spells s p =
    ((c : ℕ) × (p.separator ≡ c ∷ [])
      × (is_separator c ≡ true)
      × (s ≡ p.attribute ++ (p.separator ++ p.value))
      × All (λ b. is_separator b ≡ false) p.attribute)
    ⊎ ((p ≡ no_asv) × All (λ b. is_separator b ≡ false) s)

asv_of-Spells : (s : Bytes) (c : Cut) → IsCut is_separator s c → Spells s (asv_of c)
asv_of-Spells s (cut before found after) (whole, sep, all) = inl (found, refl, sep, whole, all)
asv_of-Spells s uncut all = inr (refl, all)

-- `Arg.ASV` gives the attribute, separator and value that the argument, without white space around
-- it, spells: they follow one another in it, the separator is `=` or `*` and the attribute has
-- neither; all three are empty if the argument has no separator.
pub asv-Spells : (arg : Bytes) → Spells (trim_space arg) (asv arg)
unfolding asv
asv-Spells arg =
    asv_of-Spells (trim_space arg) (index_any is_separator (trim_space arg))
      (index_any-IsCut is_separator (trim_space arg))

seen_in_iff : (s : Bytes) (seen : List Bytes) → (seen_in s seen ≡ true) ↔ Memᴰ s seen
unfolding seen_in
seen_in_iff s [] = (λ h. cc, λ m. absurd (Memᴰ.not-nil m))
seen_in_iff s (t ∷ seen) = elim (Bool-cases (equals s t)) [
  | inl same ↦ (λ h. Memᴰ.head (equals→eq s t same), λ m. rw same refl)
  | inr other ↦ (
    λ h. Memᴰ.tail ((seen_in_iff s seen).0 (rw other at h)),
    λ m. elim (Memᴰ.cases_cons m) [
      | inl e ↦ absurd (let e2 = rw (e, equals_refl t) at other in cc)
      | inr later ↦ rw other ((seen_in_iff s seen).1 later)
    ],
  )
]

-- No text occurs twice.
abbrev pub Distinct : List Bytes → Type 0
Distinct [] = Unit
Distinct (s ∷ ss) = ((t : Bytes) → Memᴰ t ss → t ≢ s) × Distinct ss

seen_in-cons :
    (s t : Bytes) (seen : List Bytes)
    → seen_in s (t ∷ seen) ≡ false
    → (equals s t ≡ false) × (seen_in s seen ≡ false)
unfolding seen_in
seen_in-cons s t seen h = elim (Bool-cases (equals s t)) [
  | inl same ↦ absurd (let h2 = rw same at h in cc)
  | inr other ↦ (other, rw other at h)
]

unique_from_sound :
    (seen args : List Bytes) (s : Bytes)
    → Memᴰ s (strings (unique_from seen args))
    → Memᴰ s (strings args) × (seen_in s seen ≡ false)
unfolding unique_from strings
unique_from_sound seen [] s m = absurd (Memᴰ.not-nil m)
unique_from_sound seen (arg ∷ args) s m = elim (Bool-cases (seen_in (trim_space arg) seen)) [
  | inl known ↦
      let (found, fresh) = unique_from_sound seen args s (rw known at m) in (Memᴰ.tail found, fresh)
  | inr new ↦ elim (Memᴰ.cases_cons (rw new at m)) [
    | inl e ↦ (Memᴰ.head e, rw e new)
    | inr later ↦
        let (found, fresh) = unique_from_sound (trim_space arg ∷ seen) args s later in
        (Memᴰ.tail found, (seen_in-cons s (trim_space arg) seen fresh).1)
  ]
]

unique_from-complete :
    (seen args : List Bytes) (s : Bytes)
    → Memᴰ s (strings args)
    → seen_in s seen ≡ false
    → Memᴰ s (strings (unique_from seen args))
unfolding unique_from strings seen_in
unique_from-complete seen [] s m fresh = m
unique_from-complete seen (arg ∷ args) s m fresh =
    let known_or_new = Bool-cases (seen_in (trim_space arg) seen) in
    elim (Memᴰ.cases_cons m) [
      | inl e ↦
          let new : seen_in (trim_space arg) seen ≡ false = rw (← e) fresh in rw new (Memᴰ.head e)
      | inr later ↦ elim known_or_new [
        | inl known ↦ rw known (unique_from-complete seen args s later fresh)
        | inr new ↦ elim (Bool-cases (equals s (trim_space arg))) [
          | inl same ↦ rw new (Memᴰ.head (equals→eq s (trim_space arg) same))
          | inr other ↦ rw new (
              Memᴰ.tail
                (unique_from-complete (trim_space arg ∷ seen) args s later (rw other fresh)))
        ]
      ]
    ]

unique_from-Distinct : (seen args : List Bytes) → Distinct (strings (unique_from seen args))
unfolding unique_from strings
unique_from-Distinct seen [] = tt
unique_from-Distinct seen (arg ∷ args) = elim (Bool-cases (seen_in (trim_space arg) seen)) [
  | inl known ↦ rw known (unique_from-Distinct seen args)
  | inr new ↦ rw new (
    (λ t m e.
        let (_, fresh) = unique_from_sound (trim_space arg ∷ seen) args t m in
        let (differs, _) = seen_in-cons t (trim_space arg) seen fresh in
        absurd (let h = rw (e, equals_refl (trim_space arg)) at differs in cc)),
    unique_from-Distinct (trim_space arg ∷ seen) args,
  )
]

-- `Args.Args` gives no text twice, and exactly the texts of the arguments, without the white space
-- around them.
pub args_of-Distinct :
    (args : List Bytes) (s : Bytes)
    → Distinct (args_of args) × (Memᴰ s (args_of args) ↔ Memᴰ s (strings args))
unfolding args_of unique seen_in
args_of-Distinct args s = (
  unique_from-Distinct [] args,
  (λ m. (unique_from_sound [] args s m).0, λ m. unique_from-complete [] args s m refl),
)
