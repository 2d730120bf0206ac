-- ===== src/Crypt/Involution.antt =====
-- `crypt` twice is nothing, so that the same secret obfuscates and reads back.
use tacquito.Base.{ℕ, suc, ◌%◌, ◌≤◌, ◌≡◌, refl, ap, arith, [], ◌∷◌, ◌++◌, length, Bytes}
use tacquito.Base.{Bool-cases, inl, inr, ok, bit_xor}
use tacquito.Base.Bits.{bit_xor_twice}
use tacquito.Fields.Header.{marshal_version, marshal_session_id, flag_has, unencrypted_flag}
use tacquito.Header.{Header}
use tacquito.Packet.Codec.{whole}
use tacquito.Crypt.{xor_pad, pad_of, pad_loop, crypt}
use tacquito.Crypt.Pad.{length-pad_loop}

xor_pad_twice :
    (b pad : Bytes)
    → length b ≤ length pad
    → (c : Bytes) × (xor_pad b pad ≡ ok c) × (length c ≡ length b) × (xor_pad c pad ≡ ok b)
unfolding xor_pad
xor_pad_twice [] pad h = ([], refl, refl, refl)
xor_pad_twice (x ∷ b) [] h = absurd (omega arith)
xor_pad_twice (x ∷ b) (p ∷ pad) h =
    let (c, there, size, back) = xor_pad_twice b pad (omega arith) in
    (bit_xor x p ∷ c, rw there, ap suc size, rw (back, bit_xor_twice x p))

module _ (md5 : Bytes → Bytes) (md5_size : (x : Bytes) → length (md5 x) ≡ 16) where
  -- A valid version gives a pad as long as the header says.
  pad_of_total :
      (secret : Bytes) (h : Header) {v : Bytes}
      → marshal_version h.version ≡ ok v
      → (pad : Bytes) × (pad_of md5 secret h ≡ ok pad) × (length pad ≡ h.len)
  unfolding pad_of
  pad_of_total secret h {v} e =
      let seed = marshal_session_id h.session_id ++ (secret ++ (v ++ (h.seq_no % 256 ∷ []))) in
      (pad_loop md5 h.len seed h.len [] [], rw e, length-pad_loop md5 md5_size h.len seed)

  -- The pad does not depend on the flags.
  pad_of_flags :
      (secret : Bytes) (h : Header) (f : ℕ)
      → pad_of md5 secret (record h { flags = f }) ≡ pad_of md5 secret h
  unfolding pad_of
  pad_of_flags secret h f = refl

  -- On a packet with a valid version and a body no longer than its header says, `crypt` succeeds
  -- and keeps the header and the body's length; a second `crypt` with the same secret, under the
  -- same header or one with other flags that agree on encryption, gives the body back.
  pub crypt_twice :
      (secret : Bytes) (h : Header) (f : ℕ) (b v : Bytes)
      → marshal_version h.version ≡ ok v
      → length b ≤ h.len
      → flag_has f unencrypted_flag ≡ flag_has h.flags unencrypted_flag
      → (c : Bytes) × (crypt md5 secret (whole h b) ≡ ok (whole h c))
        × (length c ≡ length b)
        × (crypt md5 secret (whole (record h { flags = f }) c)
            ≡ ok (whole (record h { flags = f }) b))
  unfolding crypt
  crypt_twice secret h f b v e fits agree = elim (Bool-cases (flag_has h.flags unencrypted_flag)) [
    | inl plain ↦ (b, rw plain, refl, rw (agree, plain))
    | inr coded ↦
        let (pad, made, size) = pad_of_total secret h e in
        let (c, there, same, back) = xor_pad_twice b pad (omega arith) in
        (c, rw (coded, made, there), same, rw (agree, coded, pad_of_flags secret h f, made, back))
  ]
