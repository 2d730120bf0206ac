-- ===== src/Server/Accept/Laws.antt =====
-- Who is served.
use tacquito.Base.{
  ◌≡◌, refl, ap, ◌∙◌, Bool, true, false, List, [], ◌∷◌, Bytes, Option, none, some, Result, ok, err,
  Error, no_secret_provider,
}
use tacquito.Loader.{known, SecretProvider}
use tacquito.Loader as Loader
use tacquito.Server.Response.{Request}
use tacquito.Server.Serve.{Script}
use tacquito.Server.Accept.{
  Accepted, operation_error, other_error, connection, Service, serve_one, serve_all,
}

-- The connections that are accepted before the listener fails for good.
abbrev pub connections : {Addr : Type 0} → List (Accepted Addr) → List (Addr × Bytes)
connections [] = []
connections (operation_error true ∷ turns) = connections turns
connections (operation_error false ∷ turns) = []
connections (other_error ∷ turns) = connections turns
connections (connection remote stream ∷ turns) = (remote, stream) ∷ connections turns

-- What `Loader.get` answers, in the three values of the interface.
abbrev pub triple : {H : Type 0} → Result (Bytes × H) → Option Bytes × Option H × Option Error
triple (ok found) = (some found.0, some found.1, none)
triple (err e) = (none, none, some e)
triple Result.panic = (none, none, some no_secret_provider)

abbrev pub first_known :
    {Addr H : Type 0} → List (SecretProvider Addr H) → Addr → Option (Bytes × H)
first_known [] remote = none
first_known (p ∷ providers) remote = elim (known (p remote)) [
  | some found ↦ some found
  | none ↦ first_known providers remote
]

known_first :
    {H : Type 0} (o : Option (Bytes × H)) (rest : Result (Bytes × H)) (later : Option (Bytes × H))
    → known (triple rest) ≡ later
    → known (triple (elim o [ some found ↦ ok found | none ↦ rest ]))
      ≡ (elim o [ some found ↦ some found | none ↦ later ])
unfolding known
known_first none rest later e = e
known_first (some found) rest later e = refl

module _ {Addr H : Type 0} (Ip : Type 0) (md5 : Bytes → Bytes) (handle : H → Request → Script H)
    (proxy : Bool) (providers : List (SecretProvider Addr H)) where
  abbrev provider : Addr → Option Bytes × Option H × Option Error
  provider remote = triple (Loader.get providers remote)

  abbrev pub served_each : List (Addr × Bytes) → List Service
  served_each [] = []
  served_each (c ∷ cs) =
      serve_one Ip md5 provider handle proxy (first_known providers c.0) c.1 ∷ served_each cs

  get-first_known :
      (ps : List (SecretProvider Addr H)) (remote : Addr)
      → known (triple (Loader.get ps remote)) ≡ first_known ps remote
  unfolding known Loader.get
  get-first_known [] remote = refl
  get-first_known (p ∷ ps) remote =
      known_first (known (p remote)) (Loader.get ps remote) (first_known ps remote)
        (get-first_known ps remote)

  -- With the providers of the loader, each connection that is accepted before the listener fails is
  -- served alone, with the secret and the handler of the first provider that knows its address, or is
  -- closed with nothing sent where none does; temporary and unknown errors are passed over.
  pub serve_all-each :
      (turns : List (Accepted Addr))
      → serve_all Ip md5 provider handle proxy turns ≡ served_each (connections turns)
  unfolding serve_all
  serve_all-each [] = refl
  serve_all-each (operation_error true ∷ turns) = serve_all-each turns
  serve_all-each (operation_error false ∷ turns) = refl
  serve_all-each (other_error ∷ turns) = serve_all-each turns
  serve_all-each (connection remote stream ∷ turns) =
      ap
        (λ (k : Option (Bytes × H)).
          serve_one Ip md5 provider handle proxy k stream
          ∷ serve_all Ip md5 provider handle proxy turns)
        (get-first_known providers remote)
      ∙ ap
          (λ (rest : List Service).
            serve_one Ip md5 provider handle proxy (first_known providers remote) stream ∷ rest)
          (serve_all-each turns)
