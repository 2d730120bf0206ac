-- ===== src/Server/Serve/Proxied/Laws.antt =====
-- The loop behind a proxy against the loop without one.
use tacquito.Base.{
  ℕ, zero, suc, ◌≡◌, refl, ap, ◌∙◌, List, [], ◌∷◌, ◌++◌, Bytes, Option, none, some, Result, ok, sym,
  All,
}
use tacquito.Proxy.{tcp, proxy_header, read_behind_proxy, read_bytes}
use tacquito.Proxy.Laws.{read_behind_proxy-read, Word}
use tacquito.Crypt.Connection.{Arrival, packet, refused, read, read_full}
use tacquito.Server.Sessions.{Sessions}
use tacquito.Server.Response.{Request}
use tacquito.Server.Serve.{
  Script, Step, closed, served, Outcome, round, follow, before, handle_packet, serve,
}
use tacquito.Server.Serve.Proxied.{serve_proxied}

-- A packet as it is sent, with the addresses of the line in front of it.
pub record Chunk (Ip : Type 0) : Type 0 where
  pub client : Ip × ℕ
  pub remote : Ip × ℕ
  pub bytes : Bytes

-- The bytes are those of one packet, or of one that is refused.
abbrev pub IsWhole : {Ip : Type 0} → (Bytes → Bytes) → Bytes → Chunk Ip → Type 0
IsWhole md5 secret c =
    (arrived : Arrival) × ((rest : Bytes) → read md5 secret (c.bytes ++ rest) ≡ ok (arrived, rest))

abbrev pub line : {Ip : Type 0} → (Ip → Bytes) → (ℕ → Bytes) → Chunk Ip → Bytes
line print_ip print_port c = proxy_header print_ip print_port (record {
  client = tcp (some c.client.0) c.client.1;
  remote = tcp (some c.remote.0) c.remote.1;
})

abbrev pub behind_proxy : {Ip : Type 0} → (Ip → Bytes) → (ℕ → Bytes) → List (Chunk Ip) → Bytes
behind_proxy print_ip print_port [] = []
behind_proxy print_ip print_port (c ∷ chunks) =
    line print_ip print_port c ++ (c.bytes ++ behind_proxy print_ip print_port chunks)

abbrev pub direct : {Ip : Type 0} → List (Chunk Ip) → Bytes
direct [] = []
direct (c ∷ chunks) = c.bytes ++ direct chunks

module _ {H : Type 0} (Ip : Type 0) (md5 : Bytes → Bytes) (secret : Bytes)
    (handle : H → Request → Script H) (entry : H) where
  follow-same :
      (a b : Sessions H → Outcome) (step : Option (Step H))
      → ((t : Sessions H) → a t ≡ b t)
      → follow md5 secret handle entry a step ≡ follow md5 secret handle entry b step
  unfolding follow before
  follow-same a b none e = refl
  follow-same a b (some (closed t)) e = refl
  follow-same a b (some (served t r)) e =
      ap (λ (o : Outcome). before md5 secret handle entry r.sent o) (e t)

  round-same :
      (a b : Sessions H → Bytes → Outcome) (s : Sessions H) (arrived : Arrival) (left right : Bytes)
      → ((t : Sessions H) → a t left ≡ b t right)
      → round md5 secret handle entry a s (ok (arrived, left))
        ≡ round md5 secret handle entry b s (ok (arrived, right))
  unfolding round
  round-same a b s (refused out) left right e = refl
  round-same a b s (packet p) left right e =
      follow-same (λ t. a t left) (λ t. b t right) (handle_packet md5 secret handle entry s p) e

  module _ (print_ip : Ip → Bytes) (print_port : ℕ → Bytes) (ip-Word : (i : Ip) → Word (print_ip i))
      (port-Word : (p : ℕ) → Word (print_port p)) where
    -- A connection behind a proxy, with a line for two TCP addresses in front of each packet, is served
    -- as one with the packets alone: the same is sent, and the loop is left for the same reason.
    pub serve_proxied-serve :
        (chunks : List (Chunk Ip)) (fuel : ℕ) (s : Sessions H)
        → All (IsWhole md5 secret) chunks
        → serve_proxied Ip md5 secret handle entry fuel s (behind_proxy print_ip print_port chunks)
          ≡ serve md5 secret handle entry fuel s (direct chunks)
    unfolding serve_proxied serve
    serve_proxied-serve chunks zero s h = refl
    serve_proxied-serve [] (suc fuel) s h =
        unfold round read_behind_proxy read_bytes read read_full in refl
    serve_proxied-serve (c ∷ chunks) (suc fuel) s h =
        let lined =
          read_behind_proxy-read print_ip print_port ip-Word port-Word md5 secret c.client.0
            c.remote.0 c.client.1 c.remote.1 (c.bytes ++ behind_proxy print_ip print_port chunks) in
        ap
          (λ (r : Result (Arrival × Bytes)).
            round md5 secret handle entry (serve_proxied Ip md5 secret handle entry fuel) s r)
          (lined ∙ h.0.1 (behind_proxy print_ip print_port chunks))
        ∙ (round-same (serve_proxied Ip md5 secret handle entry fuel)
              (serve md5 secret handle entry fuel) s h.0.0 (behind_proxy print_ip print_port chunks)
              (direct chunks) (λ t. serve_proxied-serve chunks fuel t h.1)
            ∙ ap
                (λ (r : Result (Arrival × Bytes)).
                  round md5 secret handle entry (serve md5 secret handle entry fuel) s r)
                (sym (h.0.1 (direct chunks))))
