-- ===== src/Crypt.antt =====
-- crypt.go: the obfuscation of packet bodies. MD5 is a parameter.
pub mod Pad
pub mod Involution
pub mod BadSecret
pub mod Connection
use tacquito.Base.{
  ℕ, zero, suc, ◌+◌, ◌%◌, List, [], ◌∷◌, ◌++◌, length, take, ltb, if◌then◌else◌, Bytes,
}
use tacquito.Base.{Bool, true, false, bit_xor, Option, none, some, Result, ok, err, panic, ◌>>=◌}
use tacquito.Fields.Header.{marshal_version, marshal_session_id, flag_has, unencrypted_flag}
use tacquito.Header.{Header}
use tacquito.Packet.{Packet}

-- `p.Body[i] = b ^ pad[i]` for each index of the body; the pad may not be shorter.
unfoldable pub xor_pad : Bytes → Bytes → Result Bytes
xor_pad [] pad = ok []
xor_pad (b ∷ bs) [] = panic
xor_pad (b ∷ bs) (p ∷ ps) = do rest ← xor_pad bs ps; ok (bit_xor b p ∷ rest)

-- A nil body has no index.
xor_body : Option Bytes → Bytes → Result (Option Bytes)
xor_body none pad = ok none
xor_body (some b) pad = do b' ← xor_pad b pad; ok (some b')

module _ (md5 : Bytes → Bytes) where
  -- `seed` is what each round writes before the last hash. A round adds a hash, so that `target`
  -- rounds are enough (Crypt/Pad).
  pub pad_loop : ℕ → Bytes → ℕ → Bytes → Bytes → Bytes
  pad_loop zero seed target last_hash pad = pad
  pad_loop (suc fuel) seed target last_hash pad =
      let hash = md5 (seed ++ last_hash) in
      let longer = pad ++ hash in
      let cut = if ltb target (length longer) then take target longer else longer in
      let more = pad_loop fuel seed target hash cut in if ltb (length pad) target then more else pad

  -- `{session_id, key, version, seq_no}` is hashed, with the last hash behind it.
  unfoldable pub pad_of : Bytes → Header → Result Bytes
  pad_of secret h = do
    version ← marshal_version h.version
    let seed = marshal_session_id h.session_id ++ (secret ++ (version ++ (h.seq_no % 256 ∷ [])))
    ok (pad_loop h.len seed h.len [] [])

  -- The header is read and the body replaced; a nil header is dereferenced.
  crypt_parts : Bytes → Option Header → Option Bytes → Result (Option Bytes)
  crypt_parts secret none body = panic
  crypt_parts secret (some h) body =
      if flag_has h.flags unencrypted_flag
      then ok body
      else do pad ← pad_of secret h; xor_body body pad

  unfoldable pub crypt : Bytes → Packet → Result Packet
  unfolding crypt_parts xor_body
  crypt secret p = do body ← crypt_parts secret p.header p.body; ok (record p { body = body })
