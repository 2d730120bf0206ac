-- ===== src/Wire/Sound.antt =====
-- What a read says of the buffer that it read.
use Prim.Native.Nat.{min}
use tacquito.Base.{ℕ, zero, suc, ◌+◌, ◌%◌, ◌≤◌, ◌<◌, ◌≡◌, refl, ap, ◌∙◌, arith}
use tacquito.Base.{List, [], ◌∷◌, ◌++◌, append_assoc, length, take, drop, Bytes, IsBytes, All}
use tacquito.Base.{length-take, length-drop, take-append-drop}
use tacquito.Wire.{read_byte, arg_len_bytes, arg_bytes, read_arg_lens, read_args, args_len}
use tacquito.Wire.Laws.{read_string_cut, lengths, FitsByte}

abbrev pub sum : List ℕ → ℕ
sum [] = 0
sum (n ∷ ns) = n + sum ns

abbrev pub Positive : List ℕ → Type 0
Positive = All (λ n. 0 < n)

pub read_arg_lens-sum : (n : ℕ) (s : Bytes) → (read_arg_lens n s).1 ≡ sum (read_arg_lens n s).0
unfolding read_arg_lens
read_arg_lens-sum zero s = refl
read_arg_lens-sum (suc n) s =
    ap (λ (t : ℕ). (read_byte s).0 + t) (read_arg_lens-sum n (read_byte s).1)

pub length-read_arg_lens : (n : ℕ) (s : Bytes) → length (read_arg_lens n s).0 ≡ n
unfolding read_arg_lens
length-read_arg_lens zero s = refl
length-read_arg_lens (suc n) s = ap suc (length-read_arg_lens n (read_byte s).1)

-- Lengths that are not zero were all in the buffer, and stand at its front.
pub read_arg_lens-split :
    (n : ℕ) (s : Bytes)
    → Positive (read_arg_lens n s).0
    → s ≡ (read_arg_lens n s).0 ++ (read_arg_lens n s).2
unfolding read_arg_lens
read_arg_lens-split zero s h = refl
read_arg_lens-split (suc n) [] h = absurd (omega (arith, h.0))
read_arg_lens-split (suc n) (c ∷ s) h = ap (◌∷◌ c) (read_arg_lens-split n s h.1)

pub read_args-split :
    (lens : List ℕ) (s : Bytes) → arg_bytes (read_args lens s).0 ++ (read_args lens s).1 ≡ s
unfolding read_args arg_bytes
read_args-split [] s = refl
read_args-split (n ∷ lens) s = rw read_string_cut (
    append_assoc (take n s) _ _
    ∙ ap (λ (t : Bytes). take n s ++ t) (read_args-split lens (drop n s))
    ∙ take-append-drop n s)

-- The texts take what was asked for, or all that there is.
pub args_len-read_args :
    (lens : List ℕ) (s : Bytes) → args_len (read_args lens s).0 ≡ min (sum lens) (length s)
unfolding read_args args_len
args_len-read_args [] s = omega arith
args_len-read_args (n ∷ lens) s =
    rw read_string_cut
      (omega (arith, length-take n s, length-drop n s, args_len-read_args lens (drop n s)))

-- Arguments that are as long as was asked for altogether are so each.
pub lengths-read_args :
    (lens : List ℕ) (s : Bytes)
    → args_len (read_args lens s).0 ≡ sum lens
    → lengths (read_args lens s).0 ≡ lens
unfolding read_args args_len
lengths-read_args [] s h = refl
lengths-read_args (n ∷ lens) s h =
    let h' : length (take n s) + args_len (read_args lens (drop n s)).0 ≡ n + sum lens =
      rw read_string_cut at h in
    let bound = args_len-read_args lens (drop n s) in
    let whole : length (take n s) ≡ n = omega (arith, length-take n s, bound, h') in
    rw read_string_cut (rw (whole, lengths-read_args lens (drop n s) (omega (arith, whole, h'))))

pub arg_len_bytes-lengths :
    (args : List Bytes) → IsBytes (lengths args) → arg_len_bytes args ≡ lengths args
unfolding arg_len_bytes
arg_len_bytes-lengths [] h = refl
arg_len_bytes-lengths (a ∷ args) h =
    let fits : length a % 256 ≡ length a = omega (arith, h.0) in
    rw (fits, arg_len_bytes-lengths args h.1)

pub length-lengths : (args : List Bytes) → length (lengths args) ≡ length args
length-lengths [] = refl
length-lengths (a ∷ args) = ap suc (length-lengths args)

pub FitsByte-lengths : (args : List Bytes) → IsBytes (lengths args) → All FitsByte args
FitsByte-lengths [] h = tt
FitsByte-lengths (a ∷ args) h = (h.0, FitsByte-lengths args h.1)

pub add_four : (a b c d : ℕ) → a + b + c + d ≡ a + (b + (c + (d + 0)))
add_four a b c d = omega arith

pub add_two : (a b : ℕ) → a + b ≡ a + (b + 0)
add_two a b = omega arith

pub low_byte : {m : ℕ} (n : ℕ) → m ≡ n → n < 256 → m % 256 ≡ n
low_byte n e h = omega arith

-- Lengths of two bytes or more are not zero, and fit a byte up to 255.
pub Positive-lengths :
    (args : List Bytes)
    → All (λ t. (2 ≤ length t) × (length t ≤ 255)) args
    → Positive (lengths args)
Positive-lengths [] h = tt
Positive-lengths (a ∷ args) h = (omega (arith, h.0), Positive-lengths args h.1)

pub FitsByte-valid :
    (args : List Bytes) → All (λ t. (2 ≤ length t) × (length t ≤ 255)) args → All FitsByte args
FitsByte-valid [] h = tt
FitsByte-valid (a ∷ args) h = (omega (arith, h.0), FitsByte-valid args h.1)

pub add_total : (a b c t : ℕ) → a + b + c + t ≡ a + (b + (c + t))
add_total a b c t = omega arith

pub add_pair_total : (a b t : ℕ) → a + b + t ≡ a + (b + t)
add_pair_total a b t = omega arith
