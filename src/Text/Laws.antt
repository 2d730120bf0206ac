-- ===== src/Text/Laws.antt =====
-- The equality test decides, trimming ends with no space in front, and a text is cut at the first
-- byte that is looked for.
use tacquito.Base.{ℕ, zero, suc, ◌≤◌, ◌≡◌, ◌≢◌, refl, ap, arith, Bool, true, false, ◌==◌}
use tacquito.Base.{
  Bool-cases, inl, inr, ==→eq, ==-ne, ==_refl, List, [], ◌∷◌, ◌++◌, length, length-drop, drop,
  Bytes, All,
}
use tacquito.Text.{equals, is_empty, Cut, cut, uncut, extend, index_any, strip}

pub equals→eq : (s t : Bytes) → equals s t ≡ true → s ≡ t
equals→eq [] [] h = refl
equals→eq [] (b ∷ t) h = cc
equals→eq (a ∷ s) [] h = cc
equals→eq (a ∷ s) (b ∷ t) h = elim (Bool-cases (a == b)) [
  | inl e ↦ cc (==→eq a b e, equals→eq s t (rw e at h))
  | inr n ↦ absurd (let e2 = rw n at h in cc)
]

pub equals_refl : (s : Bytes) → equals s s ≡ true
equals_refl [] = refl
equals_refl (a ∷ s) = rw (==_refl a) (equals_refl s)

pub equals-ne : (s t : Bytes) → equals s t ≡ false → s ≢ t
equals-ne s t h e = absurd (let e2 = rw (e, equals_refl t) at h in cc)

pub ne→equals : (s t : Bytes) → s ≢ t → equals s t ≡ false
ne→equals s t h = elim (Bool-cases (equals s t)) [
  | inl same ↦ absurd (h (equals→eq s t same))
  | inr other ↦ other
]

pub is_empty→eq {ℓ} : {A : Type ℓ} (xs : List A) → is_empty xs ≡ true → xs ≡ []
is_empty→eq [] h = refl
is_empty→eq (x ∷ xs) h = cc

pub ne→is_empty {ℓ} : {A : Type ℓ} (xs : List A) → xs ≢ [] → is_empty xs ≡ false
ne→is_empty [] h = absurd (h refl)
ne→is_empty (x ∷ xs) h = refl

pub is_empty-ne {ℓ} : {A : Type ℓ} (xs : List A) → is_empty xs ≡ false → xs ≢ []
is_empty-ne [] h e = absurd (let h2 = h in cc)
is_empty-ne (x ∷ xs) h e = absurd (let e2 = e in cc)

pub equals_iff : (s t : Bytes) → ((equals s t ≡ true) → s ≡ t) × (s ≡ t → equals s t ≡ true)
equals_iff s t = (equals→eq s t, λ e. rw e (equals_refl t))

-- A text is cut at the first byte that passes the test, and is not if none does.
abbrev pub IsCut : (ℕ → Bool) → Bytes → Cut → Type 0
IsCut test s (cut before found after) =
    (s ≡ before ++ (found ∷ after)) × (test found ≡ true) × All (λ c. test c ≡ false) before
IsCut test s uncut = All (λ c. test c ≡ false) s

extend-IsCut :
    (test : ℕ → Bool) (a : ℕ) (s : Bytes) (c : Cut)
    → test a ≡ false
    → IsCut test s c
    → IsCut test (a ∷ s) (extend a c)
unfolding extend
extend-IsCut test a s (cut before found after) h (e, f, all) = (ap (◌∷◌ a) e, f, (h, all))
extend-IsCut test a s uncut h all = (h, all)

pub index_any-IsCut : (test : ℕ → Bool) (s : Bytes) → IsCut test s (index_any test s)
unfolding index_any
index_any-IsCut test [] = tt
index_any-IsCut test (a ∷ s) = elim (Bool-cases (test a)) [
  | inl found ↦ rw found (refl, found, tt)
  | inr not_here ↦
      rw not_here (extend-IsCut test a s (index_any test s) not_here (index_any-IsCut test s))
]

-- With a round for each byte nothing is left to strip.
strip_lem :
    (width : Bytes → ℕ) (fuel : ℕ) (s : Bytes)
    → ((t : Bytes) → width t ≤ length t)
    → length s ≤ fuel
    → width (strip width fuel s) ≡ 0
unfolding strip
strip_lem width zero s bound enough = omega (arith, bound s)
strip_lem width (suc fuel) s bound enough = elim (Bool-cases (width s == 0)) [
  | inl none_left ↦ rw none_left (==→eq _ _ none_left)
  | inr more ↦ rw more (
      strip_lem width fuel (drop (width s) s) bound
        (omega (arith, length-drop (width s) s, bound s, ==-ne (width s) 0 more)))
]
