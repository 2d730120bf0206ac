-- ===== src/Wire.antt =====
-- The byte buffers of packet.go: `readBuffer`, `appendUint16`, `isAllASCII`, and the loops over
-- argument lengths that the decoders of authorize.go and accounting.go share.
-- A read gives what was read and the buffer that is left.
pub mod Laws
pub mod Sound
pub mod Decoded
pub mod Args
use tacquito.Base.{ℕ, zero, suc, ◌+◌, ◌*◌, ◌/◌, ◌%◌, ◌^◌, bit_or, Bool, true, false, not, ◌&&◌}
use tacquito.Base.{List, [], ◌∷◌, ◌++◌, length, take, drop, ltb, ◌==◌, if◌then◌else◌, Bytes}

-- `byte`, and `int`, which converts the same byte.
unfoldable pub read_byte : Bytes → ℕ × Bytes
read_byte [] = (0, [])
read_byte (c ∷ s) = (c, s)

-- A lone byte is read as one.
unfoldable pub read_uint16 : Bytes → ℕ × Bytes
unfolding read_byte
read_uint16 [] = (0, [])
read_uint16 (c ∷ []) = read_byte (c ∷ [])
read_uint16 (c ∷ d ∷ s) = (bit_or (c * 2 ^ 8) d, s)

-- At most `n` bytes: what is left, if it is shorter.
unfoldable pub read_string : ℕ → Bytes → Bytes × Bytes
read_string n s =
    if ltb (length s) 1
    then ([], s)
    else let m = if ltb (length s) n then length s else n in (take m s, drop m s)

unfoldable pub append_uint16 : Bytes → ℕ → Bytes
append_uint16 b i = b ++ (i / 2 ^ 8 % 256 ∷ i % 256 ∷ [])

unfoldable pub is_all_ascii : Bytes → Bool
is_all_ascii [] = true
is_all_ascii (c ∷ s) = not (ltb 0x7f c) && is_all_ascii s

-- `for _, arg := range a.Args { buf = append(buf, uint8(arg.Len())) }`
unfoldable pub arg_len_bytes : List Bytes → Bytes
arg_len_bytes [] = []
arg_len_bytes (a ∷ as') = length a % 256 ∷ arg_len_bytes as'

-- `for _, arg := range a.Args { buf = append(buf, arg...) }`
unfoldable pub arg_bytes : List Bytes → Bytes
arg_bytes [] = []
arg_bytes (a ∷ as') = a ++ arg_bytes as'

-- The loop that reads `argCnt` lengths: `argLens`, `totalArgLen` and the buffer.
unfoldable pub read_arg_lens : ℕ → Bytes → List ℕ × ℕ × Bytes
unfolding read_byte
read_arg_lens zero s = ([], 0, s)
read_arg_lens (suc n) s =
    let (len, s') = read_byte s in
    let (lens, total, rest) = read_arg_lens n s' in (len ∷ lens, len + total, rest)

-- The loop that reads one argument for each length.
unfoldable pub read_args : List ℕ → Bytes → List Bytes × Bytes
read_args [] s = ([], s)
read_args (n ∷ lens) s =
    let (arg, s') = read_string n s in let (args, rest) = read_args lens s' in (arg ∷ args, rest)

-- The sum of the arguments' lengths, as the `Len` methods add it up.
unfoldable pub args_len : List Bytes → ℕ
args_len [] = 0
args_len (a ∷ as') = length a + args_len as'
