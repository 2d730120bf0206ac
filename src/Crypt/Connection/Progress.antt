-- ===== src/Crypt/Connection/Progress.antt =====
-- How much of the stream a read takes.
use tacquito.Base.{ℕ, ◌+◌, ◌≤◌, ◌≡◌, sym, ap, arith, length, drop, length-drop, Bytes}
use tacquito.Base.{ok, bind-eq-ok, ok-injective, Bool-cases, inl, inr, ltb, ltb→le}
use tacquito.Crypt.Connection.{Arrival, read, read_full, inspect, announced}
use tacquito.Crypt.{crypt}
use tacquito.Header.{max_body_length, max_header_length}
use tacquito.Packet

read_full-rest :
    (n : ℕ) (s x rest : Bytes) → read_full n s ≡ ok (x, rest) → length s ≡ n + length rest
unfolding read_full
read_full-rest n s x rest e = elim (Bool-cases (ltb (length s) n)) [
  | inl short ↦ absurd (let e2 = rw short at e in cc)
  | inr enough ↦
      let e2 : rest ≡ drop n s = ap (λ p. p.1) (sym (ok-injective (rw enough at e))) in
      rw e2 (omega (arith, length-drop n s, ltb→le (length s) n enough))
]

module _ (md5 : Bytes → Bytes) (secret : Bytes) where
  -- A packet that was read took at least the twelve bytes of a header from the stream.
  pub read-progress :
      (s rest : Bytes) (a : Arrival)
      → read md5 secret s ≡ ok (a, rest)
      → length rest + 12 ≤ length s
  unfolding read
  read-progress s rest a e =
      let (r1, first, e1) = bind-eq-ok (read_full max_header_length s) _ e in
      elim (Bool-cases (ltb max_body_length (announced r1.0))) [
        | inl large ↦ absurd (let e2 = rw large at e1 in cc)
        | inr fine ↦
            let (r2, second, e2) = bind-eq-ok (read_full (announced r1.0) r1.1) _ (rw fine at e1) in
            let (p, _, e3) = bind-eq-ok (Packet.unmarshal_binary _ _) _ e2 in
            let (q, _, e4) = bind-eq-ok (crypt md5 secret p) _ e3 in
            let (x, _, e5) = bind-eq-ok (inspect md5 secret q q.header q.body) _ e4 in
            let same : r2.1 ≡ rest = ap (λ p. p.1) (ok-injective e5) in
            let took = read_full-rest max_header_length s r1.0 r1.1 first in
            let took_body = read_full-rest (announced r1.0) r1.1 r2.0 r2.1 second in
            omega (arith, took, took_body, ap length same)
      ]
