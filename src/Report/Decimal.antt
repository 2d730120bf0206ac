-- ===== src/Report/Decimal.antt =====
-- What `fmt` prints for `%d`: the decimal digits of a number.
use tacquito.Base.{
  ℕ, zero, suc, ◌+◌, ◌-◌, ◌*◌, ◌/◌, ◌%◌, ◌^◌, ◌≤◌, ◌<◌, ◌≡◌, refl, sym, ap, ◌∙◌, arith,
}
use tacquito.Base.{[], ◌∷◌, ◌++◌, ltb, if◌then◌else◌, Bytes, length}
use tacquito.Base.{Bool-cases, inl, inr, length-append}
use native.Mathlib.Nat.{pow-suc}

-- The digits of a number below `10 ^ fuel`.
unfoldable pub decimal_from : ℕ → ℕ → Bytes
decimal_from zero n = []
decimal_from (suc fuel) n =
    let more = decimal_from fuel (n / 10) ++ ((48 + n % 10) ∷ []) in
    if ltb n 10 then (48 + n) ∷ [] else more

-- Ten digits are enough for a uint32.
unfoldable pub decimal : ℕ → Bytes
decimal n = decimal_from 10 n

-- The number that digits stand for, behind a number that was read.
read_digits : ℕ → Bytes → ℕ
read_digits n [] = n
read_digits n (c ∷ s) = read_digits (n * 10 + (c - 48)) s

read_digits-append :
    (n : ℕ) (s t : Bytes) → read_digits n (s ++ t) ≡ read_digits (read_digits n s) t
unfolding read_digits
read_digits-append n [] t = refl
read_digits-append n (c ∷ s) t = read_digits-append (n * 10 + (c - 48)) s t

read_digits-decimal_from : (fuel n : ℕ) → n < 10 ^ fuel → read_digits 0 (decimal_from fuel n) ≡ n
unfolding read_digits decimal_from
read_digits-decimal_from zero n h = omega arith
read_digits-decimal_from (suc fuel) n h = elim (Bool-cases (ltb n 10)) [
  | inl e ↦ rw e (omega arith)
  | inr e ↦
      let ih = read_digits-decimal_from fuel (n / 10) (omega (arith, pow-suc 10 fuel)) in
      rw (e, read_digits-append 0 (decimal_from fuel (n / 10)) ((48 + n % 10) ∷ []), ih)
        (omega arith)
]

-- Two numbers of a uint32 that are printed alike are equal.
pub decimal_inj : (n m : ℕ) → n < 2 ^ 32 → m < 2 ^ 32 → decimal n ≡ decimal m → n ≡ m
unfolding decimal
decimal_inj n m h k e =
    sym (read_digits-decimal_from 10 n (omega arith))
    ∙ ap (λ (s : Bytes). read_digits 0 s) e
    ∙ read_digits-decimal_from 10 m (omega arith)

length-decimal_from : (fuel n : ℕ) → length (decimal_from fuel n) ≤ fuel
unfolding decimal_from
length-decimal_from zero n = omega arith
length-decimal_from (suc fuel) n = elim (Bool-cases (ltb n 10)) [
  | inl e ↦ rw e (omega arith)
  | inr e ↦ rw e (
      omega (
        arith,
        length-decimal_from fuel (n / 10),
        length-append (decimal_from fuel (n / 10)) ((48 + n % 10) ∷ []),
      ))
]
