-- ===== src/Report/Names/Laws.antt =====
-- That the printed names tell the values apart.
use mathlib.Core.List.{append_cancel_left, append_cancel_right}
use tacquito.Base.{ℕ, ◌<◌, ◌≡◌, refl, sym, ◌∙◌, arith, Bool, true, false, not, ◌&&◌, List, [], ◌∷◌}
use tacquito.Base.{◌==◌, ==→eq, get_or, Bytes, codes, ◌≢◌, Bool-cases, inl, inr}
use tacquito.Base.{◌↔◌, Error, ok, err}
use tacquito.Fields.{among, require}
use tacquito.Text.{equals}
use tacquito.Text.Laws.{equals-ne}
use tacquito.Report.Decimal.{decimal, decimal_inj}
use tacquito.Report.Names.{name_in, unknown, named}

-- The names of a table are different from each other, and from every number in brackets.
unfoldable pub fresh : Bytes → List (ℕ × Bytes) → Bool
fresh name [] = not (get_or name 0 0 == b'u')
fresh name (entry ∷ table) = not (equals name entry.1) && fresh name table

unfoldable pub distinct : List (ℕ × Bytes) → Bool
unfolding fresh
distinct [] = true
distinct (entry ∷ table) = fresh entry.1 table && distinct table

pub unknown_inj :
    (kind : Bytes) (t u : ℕ) → t < 256 → u < 256 → unknown kind t ≡ unknown kind u → t ≡ u
unfolding unknown
unknown_inj kind t u h k e = decimal_inj t u (omega arith) (omega arith) (
    append_cancel_right (decimal t) (decimal u) (codes "]") (
      append_cancel_left (codes "[") _ _
        (append_cancel_left kind _ _ (append_cancel_left (codes "unknown ") _ _ e))))

and_parts : (a b : Bool) → (a && b) ≡ true → (a ≡ true) × (b ≡ true)
and_parts a b h = ground arith

not-true : (a : Bool) → not a ≡ true → a ≡ false
not-true a h = ground arith

-- A name that is not in a table is not what the table prints.
fresh_name :
    (table : List (ℕ × Bytes)) (kind name : Bytes) (t : ℕ)
    → fresh name table ≡ true
    → name_in table (unknown kind t) t ≢ name
unfolding fresh name_in unknown
fresh_name [] kind name t h e = absurd (let bad : false ≡ true = rw (← e) at h in cc)
fresh_name (entry ∷ table) kind name t h e =
    let (differs, later) = and_parts _ _ h in
    elim (Bool-cases (t == entry.0)) [
      | inl hit ↦ equals-ne name entry.1 (not-true _ differs) (sym (rw hit at e))
      | inr miss ↦ fresh_name table kind name t later (rw miss at e)
    ]

pub named-distinct :
    (table : List (ℕ × Bytes)) (kind : Bytes) (t u : ℕ)
    → distinct table ≡ true
    → t < 256
    → u < 256
    → name_in table (unknown kind t) t ≡ name_in table (unknown kind u) u
    → t ≡ u
unfolding distinct name_in
named-distinct [] kind t u d h k e = unknown_inj kind t u h k e
named-distinct (entry ∷ table) kind t u d h k e =
    let (first, rest) = and_parts _ _ d in
    elim (Bool-cases (t == entry.0)) [
      | inl a ↦ elim (Bool-cases (u == entry.0)) [
        | inl b ↦ ==→eq t entry.0 a ∙ sym (==→eq u entry.0 b)
        | inr b ↦ absurd (fresh_name table kind entry.1 u first (sym (rw (a, b) at e)))
      ]
      | inr a ↦ elim (Bool-cases (u == entry.0)) [
        | inl b ↦ absurd (fresh_name table kind entry.1 t first (rw (a, b) at e))
        | inr b ↦ named-distinct table kind t u rest h k (rw (a, b) at e)
      ]
    ]

abbrev constants : List (ℕ × Bytes) → List ℕ
constants [] = []
constants (entry ∷ table) = entry.0 ∷ constants table

fresh_first :
    (name : Bytes) (table : List (ℕ × Bytes))
    → fresh name table ≡ true
    → (get_or name 0 0 == b'u') ≡ false
unfolding fresh
fresh_first name [] h = not-true _ h
fresh_first name (entry ∷ table) h = fresh_first name table (and_parts _ _ h).1

name_of_unlisted :
    (table : List (ℕ × Bytes)) (other : Bytes) (t : ℕ)
    → among t (constants table) ≡ false
    → name_in table other t ≡ other
unfolding name_in
name_of_unlisted [] other t h = refl
name_of_unlisted (entry ∷ table) other t h = elim (Bool-cases (t == entry.0)) [
  | inl hit ↦ absurd (let bad : true ≡ false = rw hit at h in cc)
  | inr miss ↦ rw miss (name_of_unlisted table other t (rw miss at h))
]

name_of_listed :
    (table : List (ℕ × Bytes)) (kind : Bytes) (t : ℕ)
    → distinct table ≡ true
    → among t (constants table) ≡ true
    → name_in table (unknown kind t) t ≢ unknown kind t
unfolding name_in distinct
name_of_listed [] kind t d h e = cc
name_of_listed (entry ∷ table) kind t d h e =
    let (first, rest) = and_parts _ _ d in
    elim (Bool-cases (t == entry.0)) [
      | inl hit ↦ absurd (
          let f : (get_or (unknown kind t) 0 0 == b'u') ≡ false =
            rw (rw hit at e) at (fresh_first entry.1 table first) in
          let g : true ≡ false = unfold unknown in f in cc)
      | inr miss ↦ name_of_listed table kind t rest (rw miss at h) (rw miss at e)
    ]

-- A kind's check refuses exactly the values that its `String` prints as a number.
pub checked_name :
    (table : List (ℕ × Bytes)) (kind : Bytes) (t : ℕ) (x : Error)
    → distinct table ≡ true
    → (require (among t (constants table)) x ≡ err x) ↔ (named kind table t ≡ unknown kind t)
unfolding named
checked_name table kind t x d = elim (Bool-cases (among t (constants table))) [
  | inl listed ↦ (
    (λ h. absurd (let bad : ok tt ≡ err x = rw listed at h in cc)),
    (λ h. absurd (name_of_listed table kind t d listed h)),
  )
  | inr unlisted ↦
      ((λ h. name_of_unlisted table (unknown kind t) t unlisted), (λ h. rw unlisted refl))
]
