-- ===== src/Proxy/Laws.antt =====
-- The line of a proxy, written and taken off again.
use tacquito.Base.{
  ℕ, ◌≡◌, ◌≢◌, refl, sym, ap, ◌∙◌, arith, ne→==, [], ◌∷◌, ◌++◌, append_assoc, length, length-append,
  All, All-append, Bytes, codes,
}
use tacquito.Base.{some, ok}
use tacquito.Text.Laws.{ne→equals}
use tacquito.Crypt.Connection.{read}
use tacquito.Proxy.{
  contains, trim_suffix, split, onto_first, to_lower, tcp, addr, ProxyHeader, line_end, line_of,
  write_chunks, write_line, proxy_header, read_bytes, read_behind_proxy,
}

-- A text without spaces and null bytes.
abbrev pub Word : Bytes → Type 0
Word w = All (λ a. (a ≢ 32) × (a ≢ 0)) w

split-Word : (w rest : Bytes) → Word w → split 32 ((w ++ (32 ∷ [])) ++ rest) ≡ w ∷ split 32 rest
unfolding split
split-Word [] rest h = refl
split-Word (a ∷ w) rest h =
    let n = ne→== a 32 h.0.0 in rw (split, n) (ap (onto_first a) (split-Word w rest h.1))

split-last : (w : Bytes) → Word w → split 32 w ≡ w ∷ []
unfolding split
split-last [] h = refl
split-last (a ∷ w) h =
    let n = ne→== a 32 h.0.0 in rw (split, n) (ap (onto_first a) (split-last w h.1))

trim_suffix-append : (s : Bytes) → trim_suffix line_end (s ++ line_end) ≡ s
unfolding trim_suffix
trim_suffix-append [] = refl
trim_suffix-append (a ∷ s) =
    let longer =
      ne→equals (a ∷ (s ++ line_end)) line_end
        (λ e. (let same = ap length e in omega (arith, same, length-append s line_end))) in
    rw (trim_suffix, longer) (ap (λ rest. a ∷ rest) (trim_suffix-append s))

read_bytes-append :
    (s rest : Bytes)
    → All (λ a. a ≢ 0) s
    → read_bytes 0 ((s ++ (0 ∷ [])) ++ rest) ≡ some (s ++ (0 ∷ []), rest)
unfolding read_bytes
read_bytes-append [] rest h = refl
read_bytes-append (a ∷ s) rest h =
    let n = ne→== a 0 h.0 in rw (read_bytes, n, read_bytes-append s rest h.1) refl

read_behind_proxy-cut :
    {Ip : Type 0} (md5 : Bytes → Bytes) (secret s line rest : Bytes) (h : ProxyHeader Ip)
    → read_bytes 0 s ≡ some (line, rest)
    → write_line {Ip = Ip} line ≡ ok h
    → read_behind_proxy Ip md5 secret s ≡ read md5 secret rest
unfolding read_behind_proxy
read_behind_proxy-cut md5 secret s line rest h cut written =
    rw (read_behind_proxy, cut, written) refl

module _ {Ip : Type 0} (print_ip : Ip → Bytes) (print_port : ℕ → Bytes)
    (ip-Word : (i : Ip) → Word (print_ip i)) (port-Word : (p : ℕ) → Word (print_port p)) where
  split-line :
      (i j : Ip) (p q : ℕ)
      → split 32 (line_of print_ip print_port (i, p) (j, q))
        ≡ codes "PROXY" ∷ codes "TCP" ∷ print_ip i ∷ print_ip j ∷ print_port p ∷ print_port q ∷ []
  split-line i j p q =
      split-Word (codes "PROXY") _ (omega arith)
      ∙ ap (λ words. codes "PROXY" ∷ words)
          (split-Word (codes "TCP") _ (omega arith)
            ∙ ap (λ words. codes "TCP" ∷ words)
                (split-Word (print_ip i) _ (ip-Word i)
                  ∙ ap (λ words. print_ip i ∷ words)
                      (split-Word (print_ip j) _ (ip-Word j)
                        ∙ ap (λ words. print_ip j ∷ words)
                            (split-Word (print_port p) _ (port-Word p)
                              ∙ ap (λ words. print_port p ∷ words)
                                  (split-last (print_port q) (port-Word q))))))

  -- What `Read` gives for two TCP addresses is a line that `Write` takes, and that sets the two
  -- addresses to what was printed of them, if no space or null byte is.
  pub write_line-proxy_header :
      (i j : Ip) (p q : ℕ)
      → write_line {Ip = Ip} (
          proxy_header print_ip print_port
            (record { client = tcp (some i) p; remote = tcp (some j) q }))
        ≡ ok (record {
          client = addr (codes "tcp") (print_ip i) (print_port p);
          remote = addr (codes "tcp") (print_ip j) (print_port q);
        })
  unfolding write_line proxy_header contains write_chunks to_lower
  write_line-proxy_header i j p q =
      rw (trim_suffix-append (line_of print_ip print_port (i, p) (j, q)), split-line i j p q) refl

  Full-append : (s t : Bytes) → All (λ a. a ≢ 0) s → All (λ a. a ≢ 0) t → All (λ a. a ≢ 0) (s ++ t)
  Full-append s t h k = All-append (λ a. a ≢ 0) s t h k

  Word-full : (w : Bytes) → Word w → All (λ a. a ≢ 0) w
  Word-full [] h = tt
  Word-full (a ∷ w) h = (h.0.1, Word-full w h.1)

  spaced-full : (w : Bytes) → Word w → All (λ a. a ≢ 0) (w ++ (32 ∷ []))
  spaced-full w h = Full-append w (32 ∷ []) (Word-full w h) (omega arith)

  line-full :
      (i j : Ip) (p q : ℕ)
      → All (λ a. a ≢ 0) (line_of print_ip print_port (i, p) (j, q) ++ (13 ∷ 10 ∷ []))
  line-full i j p q =
      let ports = (print_port p ++ (32 ∷ [])) ++ print_port q in
      let one = (print_ip j ++ (32 ∷ [])) ++ ports in
      let two = (print_ip i ++ (32 ∷ [])) ++ one in
      Full-append (line_of print_ip print_port (i, p) (j, q)) (13 ∷ 10 ∷ [])
        (Full-append (codes "PROXY ") (codes "TCP " ++ two) (omega arith) (
          Full-append (codes "TCP ") two (omega arith) (
            Full-append (print_ip i ++ (32 ∷ [])) one (spaced-full (print_ip i) (ip-Word i)) (
              Full-append (print_ip j ++ (32 ∷ [])) ports (spaced-full (print_ip j) (ip-Word j)) (
                Full-append (print_port p ++ (32 ∷ [])) (print_port q)
                  (spaced-full (print_port p) (port-Word p))
                  (Word-full (print_port q) (port-Word q)))))))
        (omega arith)

  -- With the line of a proxy for two TCP addresses in front, what follows is read as it is
  -- without, if no space or null byte is printed of an address or a port: behind a proxy, each
  -- packet needs a line of its own.
  pub read_behind_proxy-read :
      (md5 : Bytes → Bytes) (secret : Bytes) (i j : Ip) (p q : ℕ) (s : Bytes)
      → read_behind_proxy Ip md5 secret (
          proxy_header print_ip print_port
            (record { client = tcp (some i) p; remote = tcp (some j) q })
          ++ s)
        ≡ read md5 secret s
  unfolding read_behind_proxy proxy_header
  read_behind_proxy-read md5 secret i j p q s =
      let line = line_of print_ip print_port (i, p) (j, q) in
      let both : (line ++ line_end) ≡ (line ++ (13 ∷ 10 ∷ [])) ++ (0 ∷ []) =
        sym (append_assoc line (13 ∷ 10 ∷ []) (0 ∷ [])) in
      let cut : read_bytes 0 ((line ++ line_end) ++ s) ≡ some (line ++ line_end, s) =
        ap (λ l. read_bytes 0 (l ++ s)) both
        ∙ (read_bytes-append (line ++ (13 ∷ 10 ∷ [])) s (line-full i j p q)
            ∙ ap (λ l. some (l, s)) (sym both)) in
      read_behind_proxy-cut md5 secret ((line ++ line_end) ++ s) (line ++ line_end) s _ cut
        (write_line-proxy_header i j p q)
