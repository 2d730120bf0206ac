-- ===== src/Text.antt =====
-- What the source uses of the packages `strings` and `fmt` on texts, which are lists of bytes in UTF-8.
pub mod Laws
use tacquito.Base.{
  ℕ, zero, suc, Bool, true, false, ◌&&◌, ◌||◌, ◌==◌, leb, if◌then◌else◌, List, [], ◌∷◌, ◌++◌,
}
use tacquito.Base.{length, drop, Bytes}

abbrev pub equals : Bytes → Bytes → Bool
equals [] [] = true
equals (a ∷ s) (b ∷ t) = a == b && equals s t
equals _ _ = false

abbrev pub is_empty {ℓ} : {A : Type ℓ} → List A → Bool
is_empty [] = true
is_empty (x ∷ xs) = false

-- `unicode.IsSpace` on a rune of one, two or three bytes.
abbrev space_one : ℕ → Bool
space_one a = leb 9 a && leb a 13 || a == 32

abbrev space_two : ℕ → ℕ → Bool
space_two a b = a == 0xc2 && (b == 0x85 || b == 0xa0)

abbrev space_three : ℕ → ℕ → ℕ → Bool
space_three a b c =
    a == 0xe1 && b == 0x9a && c == 0x80
    || a == 0xe2 && b == 0x80 && (leb 0x80 c && leb c 0x8a || c == 0xa8 || c == 0xa9 || c == 0xaf)
    || a == 0xe2 && b == 0x81 && c == 0x9f
    || a == 0xe3 && b == 0x80 && c == 0x80

-- How many bytes the white space in front takes, in a text and in one that is read backwards.
leading : Bytes → ℕ
leading (a ∷ b ∷ c ∷ s) =
    if space_one a then 1 else if space_two a b then 2 else if space_three a b c then 3 else 0
leading (a ∷ b ∷ []) = if space_one a then 1 else if space_two a b then 2 else 0
leading (a ∷ []) = if space_one a then 1 else 0
leading [] = 0

trailing : Bytes → ℕ
trailing (a ∷ b ∷ c ∷ s) =
    if space_one a then 1 else if space_two b a then 2 else if space_three c b a then 3 else 0
trailing (a ∷ b ∷ []) = if space_one a then 1 else if space_two b a then 2 else 0
trailing (a ∷ []) = if space_one a then 1 else 0
trailing [] = 0

abbrev pub reverse_onto : Bytes → Bytes → Bytes
reverse_onto [] t = t
reverse_onto (a ∷ s) t = reverse_onto s (a ∷ t)

-- A round drops a byte at least, so that the length is fuel enough (Text/Laws).
strip : (Bytes → ℕ) → ℕ → Bytes → Bytes
strip width zero s = s
strip width (suc fuel) s =
    let rest = strip width fuel (drop (width s) s) in if width s == 0 then s else rest

unfoldable pub trim_left : Bytes → Bytes
unfolding strip leading
trim_left s = strip leading (length s) s

unfoldable pub trim_right : Bytes → Bytes
unfolding strip trailing
trim_right s = reverse_onto (strip trailing (length s) (reverse_onto s [])) []

-- `strings.TrimSpace`.
unfoldable pub trim_space : Bytes → Bytes
unfolding trim_left trim_right
trim_space s = trim_right (trim_left s)

-- `strings.Join`.
unfoldable pub join : Bytes → List Bytes → Bytes
join sep [] = []
join sep (t ∷ []) = t
join sep (t ∷ ts) = t ++ (sep ++ join sep ts)

-- What `strings.IndexAny` finds: the text before the first byte that passes the test, that byte,
-- and the text after it.
pub data Cut : Type 0 where
  cut : Bytes → ℕ → Bytes → Cut
  uncut : Cut

extend : ℕ → Cut → Cut
extend a (cut before found after) = cut (a ∷ before) found after
extend a uncut = uncut

unfoldable pub index_any : (ℕ → Bool) → Bytes → Cut
unfolding extend
index_any test [] = uncut
index_any test (a ∷ s) =
    let rest = extend a (index_any test s) in if test a then cut [] a s else rest
