-- ===== src/Crypt/Pad.antt =====
-- The pad loop against the series of hashes that the comment above `crypt` describes.
use tacquito.Base.{ℕ, zero, suc, ◌+◌, ◌-◌, ◌*◌, ◌≤◌, ◌≡◌, refl, sym, ap, ◌∙◌, arith, [], ◌++◌}
use tacquito.Base.{
  append-nil, append_assoc, length, take, Bytes, Bool-cases, ltb, ltb→lt, ltb→le, inl, inr,
}
use tacquito.Base.{length-append, length-take, take-append_le, take-append_ge, le→ltb}
use tacquito.Crypt.{pad_loop}

take_none :
    (pad ys : Bytes) (target : ℕ) → target ≡ length pad → pad ++ take (target - length pad) ys ≡ pad
take_none pad ys target h =
    let none_left : target - length pad ≡ 0 = omega arith in rw (none_left, append-nil)

module _ (md5 : Bytes → Bytes) (md5_size : (x : Bytes) → length (md5 x) ≡ 16) where
  -- MD5_1, …, MD5_n one after the other, where each hashes the seed and the hash before it.
  abbrev pub hash_series : ℕ → Bytes → Bytes → Bytes
  hash_series zero seed last_hash = []
  hash_series (suc n) seed last_hash =
      md5 (seed ++ last_hash) ++ hash_series n seed (md5 (seed ++ last_hash))

  pad_loop-hash_series :
      (fuel n : ℕ) (seed : Bytes) (target : ℕ) (last_hash pad : Bytes)
      → length pad ≤ target
      → target ≤ length pad + fuel
      → target ≤ length pad + n * 16
      → pad_loop md5 fuel seed target last_hash pad
        ≡ pad ++ take (target - length pad) (hash_series n seed last_hash)
  unfolding pad_loop
  pad_loop-hash_series zero n seed target last_hash pad below enough long =
      sym (take_none pad _ target (omega arith))
  pad_loop-hash_series (suc fuel) zero seed target last_hash pad below enough long =
      rw (le→ltb (length pad) target (omega arith)) (sym (take_none pad _ target (omega arith)))
  pad_loop-hash_series (suc fuel) (suc n) seed target last_hash pad below enough long =
      let hash = md5 (seed ++ last_hash) in
      let size = md5_size (seed ++ last_hash) in
      let total = length-append pad hash in
      let later = hash_series n seed hash in
      elim (Bool-cases (ltb (length pad) target)) [
        | inr full ↦ rw full (sym (take_none pad _ target (omega (arith, ltb→le _ _ full))))
        | inl short ↦ elim (Bool-cases (ltb target (length (pad ++ hash)))) [
          | inl over ↦
              let last_cut : take target (pad ++ hash) ≡ pad ++ take (target - length pad) hash =
                take-append_ge target pad hash below in
              let fits : target - length pad ≤ length hash =
                omega (arith, total, ltb→lt _ _ over) in
              let cut_size : length (take target (pad ++ hash)) ≡ target =
                omega (arith, length-take target (pad ++ hash), ltb→lt _ _ over) in
              rw (short, over)
                (pad_loop-hash_series fuel 0 seed target hash (take target (pad ++ hash))
                    (omega arith) (omega arith) (omega arith)
                  ∙ take_none (take target (pad ++ hash)) _ target (sym cut_size)
                  ∙ last_cut
                  ∙ ap (λ (t : Bytes). pad ++ t) (sym (take-append_le _ hash later fits)))
          | inr under ↦
              let room : length (pad ++ hash) ≤ target = ltb→le _ _ under in
              rw (short, under)
                (pad_loop-hash_series fuel n seed target hash (pad ++ hash) room
                    (omega (arith, total, ltb→lt _ _ short)) (omega (arith, total))
                  ∙ append_assoc pad hash _
                  ∙ ap (λ (t : Bytes). pad ++ t)
                      (ap (λ (m : ℕ). hash ++ take m later) (omega (arith, total))
                        ∙ sym (
                            take-append_ge (target - length pad) hash later
                              (omega (arith, total)))))
        ]
      ]

  length-hash_series :
      (n : ℕ) (seed last_hash : Bytes) → length (hash_series n seed last_hash) ≡ n * 16
  length-hash_series zero seed last_hash = refl
  length-hash_series (suc n) seed last_hash =
      let rest = hash_series n seed (md5 (seed ++ last_hash)) in
      omega (
        arith,
        length-append (md5 (seed ++ last_hash)) rest,
        md5_size (seed ++ last_hash),
        length-hash_series n seed (md5 (seed ++ last_hash)),
      )

  -- With a round for each byte the loop ends, and the pad is the series of hashes cut at the
  -- target: `n` hashes are enough where they hold that many bytes.
  pub pad_loop_lem :
      (n target : ℕ) (seed : Bytes)
      → target ≤ n * 16
      → pad_loop md5 target seed target [] [] ≡ take target (hash_series n seed [])
  pad_loop_lem n target seed long =
      pad_loop-hash_series target n seed target [] [] (omega arith) (omega arith) (omega arith)
      ∙ ap (λ (m : ℕ). take m (hash_series n seed [])) (omega arith)

  pub length-pad_loop :
      (target : ℕ) (seed : Bytes) → length (pad_loop md5 target seed target [] []) ≡ target
  length-pad_loop target seed = rw (pad_loop_lem target target seed (omega arith)) (
      omega
        (arith, length-take target (hash_series target seed []), length-hash_series target seed []))
