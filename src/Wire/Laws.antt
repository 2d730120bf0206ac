-- ===== src/Wire/Laws.antt =====
-- Reading what was appended, and what a read leaves.
use tacquito.Base.{ℕ, zero, suc, ◌+◌, ◌*◌, ◌/◌, ◌%◌, ◌≤◌, ◌<◌, ◌≡◌, refl, ap, arith}
use tacquito.Base.{List, [], ◌∷◌, ◌++◌, append_assoc, length, take, drop, Bytes, IsByte, All}
use tacquito.Base.{length-append, take-append, drop-append}
use tacquito.Base.{Bool-cases, ltb, ltb→lt, le→ltb, inl, inr}
use tacquito.Base.Bits.{bit_or_shifted}
use tacquito.Wire.{read_uint16, read_string, append_uint16}
use tacquito.Wire.{arg_len_bytes, arg_bytes, read_arg_lens, read_args, args_len}

take-all {ℓ} : {A : Type ℓ} (n : ℕ) (xs : List A) → length xs ≤ n → take n xs ≡ xs
take-all zero [] h = refl
take-all zero (x ∷ xs) h = absurd (omega arith)
take-all (suc n) [] h = refl
take-all (suc n) (x ∷ xs) h = ap (◌∷◌ x) (take-all n xs (omega arith))

drop-all {ℓ} : {A : Type ℓ} (n : ℕ) (xs : List A) → length xs ≤ n → drop n xs ≡ []
drop-all zero [] h = refl
drop-all zero (x ∷ xs) h = absurd (omega arith)
drop-all (suc n) [] h = refl
drop-all (suc n) (x ∷ xs) h = drop-all n xs (omega arith)

-- `string(n)` is a cut at `n`, whatever is left.
pub read_string_cut : (n : ℕ) (s : Bytes) → read_string n s ≡ (take n s, drop n s)
unfolding read_string
read_string_cut zero [] = refl
read_string_cut (suc n) [] = refl
read_string_cut n (c ∷ s) = elim (Bool-cases (ltb (length (c ∷ s)) n)) [
  | inl short ↦
      rw (le→ltb (length (c ∷ s)) 1 (omega arith), short)
        (rw (
          take-all n (c ∷ s) (omega (arith, ltb→lt _ n short)),
          drop-all n (c ∷ s) (omega (arith, ltb→lt _ n short)),
          take-all (length s) s (omega arith),
          drop-all (length s) s (omega arith),
        ))
  | inr long ↦ rw (le→ltb (length (c ∷ s)) 1 (omega arith), long)
]

pub read_string-append : (x r : Bytes) → read_string (length x) (x ++ r) ≡ (x, r)
read_string-append x r = rw (read_string_cut, take-append, drop-append)

pub append_uint16_lem :
    (b : Bytes) (i : ℕ) → append_uint16 b i ≡ b ++ (i / 256 % 256 ∷ i % 256 ∷ [])
unfolding append_uint16
append_uint16_lem b i = refl

-- Two bytes are the number that they stand for.
pub read_uint16_lem : (c d : ℕ) (s : Bytes) → IsByte d → read_uint16 (c ∷ d ∷ s) ≡ (c * 256 + d, s)
unfolding read_uint16
read_uint16_lem c d s h = rw (bit_or_shifted 8 c d h)

pub read_uint16-append :
    (i : ℕ) (s : Bytes) → i < 65536 → read_uint16 (i / 256 % 256 ∷ i % 256 ∷ s) ≡ (i, s)
read_uint16-append i s h =
    rw (read_uint16_lem (i / 256 % 256) (i % 256) s (omega arith))
      (ap (λ (n : ℕ). (n, s)) (omega arith))

abbrev pub lengths : List Bytes → List ℕ
lengths [] = []
lengths (a ∷ args) = length a ∷ lengths args

abbrev pub FitsByte : Bytes → Type 0
FitsByte a = length a < 256

pub read_arg_lens-append :
    (args : List Bytes) (s : Bytes)
    → All FitsByte args
    → read_arg_lens (length args) (arg_len_bytes args ++ s) ≡ (lengths args, args_len args, s)
unfolding read_arg_lens arg_len_bytes args_len
read_arg_lens-append [] s h = refl
read_arg_lens-append (a ∷ args) s h =
    let fits : length a % 256 ≡ length a = omega (arith, h.0) in
    rw (fits, read_arg_lens-append args s h.1)

pub read_args-append :
    (args : List Bytes) (s : Bytes) → read_args (lengths args) (arg_bytes args ++ s) ≡ (args, s)
unfolding read_args arg_bytes
read_args-append [] s = refl
read_args-append (a ∷ args) s =
    rw (append_assoc a (arg_bytes args) s, read_string-append, read_args-append args s)

pub length-arg_len_bytes : (args : List Bytes) → length (arg_len_bytes args) ≡ length args
unfolding arg_len_bytes
length-arg_len_bytes [] = refl
length-arg_len_bytes (a ∷ args) = ap suc (length-arg_len_bytes args)

pub length-arg_bytes : (args : List Bytes) → length (arg_bytes args) ≡ args_len args
unfolding arg_bytes args_len
length-arg_bytes [] = refl
length-arg_bytes (a ∷ args) = omega (arith, length-append a (arg_bytes args), length-arg_bytes args)
