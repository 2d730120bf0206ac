-- ===== src/Wire/Args.antt =====
-- The argument list of three packets: its lengths stand in front of the texts, the arguments behind.
use tacquito.Base.{
  ℕ, ◌≤◌, ◌≡◌, sym, ap, ◌∙◌, List, ◌++◌, append_assoc, length, Bytes, IsByte, IsBytes, All,
}
use tacquito.Base.{All-append_left}
use tacquito.Wire.{read_arg_lens, arg_len_bytes}
use tacquito.Wire.Laws.{lengths}
use tacquito.Wire.Sound.{length-read_arg_lens, read_arg_lens-split, Positive-lengths}
use tacquito.Wire.Sound.{arg_len_bytes-lengths, length-lengths}

-- Arguments of two to 255 bytes with the lengths that were read: there are as many as the count
-- says, and their lengths and what was read behind them make up the input.
pub args_whole :
    (args : List Bytes) (count : ℕ) (s front rest : Bytes)
    → IsBytes s
    → All (λ t. (2 ≤ length t) × (length t ≤ 255)) args
    → lengths args ≡ (read_arg_lens count s).0
    → front ++ rest ≡ (read_arg_lens count s).2
    → (length args ≡ count) × ((arg_len_bytes args ++ front) ++ rest ≡ s)
args_whole args count s front rest small ranges es cut =
    let body = (read_arg_lens count s).2 in
    let split = read_arg_lens-split count s (rw es at (Positive-lengths args ranges)) in
    let bytes = All-append_left IsByte (read_arg_lens count s).0 body (rw split at small) in
    let written = arg_len_bytes-lengths args (rw (← es) at bytes) in
    (
      sym (length-lengths args) ∙ ap (λ (t : List ℕ). length t) es ∙ length-read_arg_lens count s,
      append_assoc (arg_len_bytes args) front rest
          ∙ ap (λ (t : Bytes). arg_len_bytes args ++ t) cut
          ∙ ap (λ (t : Bytes). t ++ body) (written ∙ es)
          ∙ sym split,
    )
