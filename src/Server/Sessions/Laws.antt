-- ===== src/Server/Sessions/Laws.antt =====
-- The invariant of the sessions between two packets of a connection, and what each operation on them
-- changes.
use tacquito.Base.{
  ℕ, ◌%◌, ◌<◌, ◌≤◌, sequence_even, sequence_stale, true, ◌≡◌, ◌≢◌, refl, arith, Option, none, some,
  ok, err,
}
use tacquito.Base.{
  ◌==◌, Bool-cases, inl, inr, leb, ok-injective, eq→==, Option-cases, Result-cases, ==_refl, ne→==,
}
use tacquito.Fields.Header.{validate_client_sequence_number, validate_last_sequence}
use tacquito.Header.{Header}
use tacquito.Server.Sessions.{SessionContext, Sessions, get, get_known, set, update, delete}

module _ {H : Type 0} where
  -- A session is known under its identifier, and has a handler for its next packet.
  unfoldable pub IsKept : ℕ → Option (SessionContext H) → Type 0
  IsKept k v =
      (sc : SessionContext H)
      → v ≡ some sc
      → (sc.header.session_id ≡ k) × ((n : H) × (sc.handler ≡ some n))

  abbrev pub IsKeyed : Sessions H → Type 0
  IsKeyed s = (k : ℕ) → IsKept k (s k)

  pub delete-other : (s : Sessions H) (k j : ℕ) → j ≢ k → delete s k j ≡ s j
  unfolding delete
  delete-other s k j h = rw (ne→== j k h) refl

  pub delete-same : (s : Sessions H) (k : ℕ) → delete s k k ≡ none
  unfolding delete
  delete-same s k = rw (==_refl k) refl

  pub set-other :
      (s : Sessions H) (h : Header) (n : Option H) (j : ℕ) → j ≢ h.session_id → set s h n j ≡ s j
  unfolding set
  set-other s h n j e = rw (ne→== j h.session_id e) refl

  pub set-same :
      (s : Sessions H) (h : Header) (n : Option H)
      → set s h n h.session_id ≡ some (record { header = h; handler = n })
  unfolding set
  set-same s h n = rw (==_refl h.session_id) refl

  pub update-other :
      (s : Sessions H) (h : Header) (n : Option H) (j : ℕ) → j ≢ h.session_id → update s h n j ≡ s j
  unfolding update
  update-other s h n j e = elim (Option-cases (s h.session_id)) [
    | inl none_known ↦ rw none_known refl
    | inr (sc, known) ↦ rw (known, ne→== j h.session_id e) refl
  ]

  pub update-same :
      (s : Sessions H) (h : Header) (n : Option H) (sc : SessionContext H)
      → s h.session_id ≡ some sc
      → update s h n h.session_id ≡ some (record { header = h; handler = n })
  unfolding update
  update-same s h n sc e = rw (e, ==_refl h.session_id) refl

  get_known-ok :
      (sc : SessionContext H) (h : Header) (state : Option H)
      → get_known (some sc) h ≡ ok state
      → (sc.header.seq_no % 256 < h.seq_no % 256) × (sc.handler ≡ state)
  unfolding get_known validate_last_sequence
  get_known-ok sc h state e = elim (Bool-cases (leb (h.seq_no % 256) (sc.header.seq_no % 256))) [
    | inl stale ↦ absurd (let e2 = rw (get_known, validate_last_sequence, stale) at e in cc)
    | inr fresh ↦ (ground arith, ok-injective (rw (get_known, validate_last_sequence, fresh) at e))
  ]

  -- What `get` finds, and that it changes nothing.
  pub get-ok :
      (s : Sessions H) (h : Header) (state : Option H)
      → (get s h).1 ≡ ok state
      → ((get s h).0 ≡ s)
        × ((h.seq_no % 256 % 2 ≢ 0)
            × ((sc : SessionContext H)
                → s h.session_id ≡ some sc
                → (sc.header.seq_no % 256 < h.seq_no % 256) × (sc.handler ≡ state)))
  unfolding get validate_client_sequence_number validate_last_sequence
  get-ok s h state e = elim (Bool-cases (h.seq_no % 256 % 2 == 0)) [
    | inl even ↦ absurd (let e2 = rw (get, validate_client_sequence_number, even) at e in cc)
    | inr odd ↦ (
      rw (get, validate_client_sequence_number, odd) refl,
      (
        λ z. (let odd2 = rw (eq→== (h.seq_no % 256 % 2) 0 z) at odd in cc),
        λ sc known.
            get_known-ok sc h state (rw (get, validate_client_sequence_number, odd, known) at e),
      ),
    )
  ]

  pub get-other : (s : Sessions H) (h : Header) (j : ℕ) → j ≢ h.session_id → (get s h).0 j ≡ s j
  unfolding get
  get-other s h j e = elim (Result-cases (validate_client_sequence_number h.seq_no)) [
    | inl (u, v) ↦ rw (get, v) refl
    | inr (inl (x, v)) ↦ rw (get, v) (delete-other s h.session_id j e)
    | inr (inr v) ↦ rw (get, v) refl
  ]

  -- `get` only forgets.
  pub get-IsKeyed : (s : Sessions H) (h : Header) → IsKeyed s → IsKeyed (get s h).0
  unfolding get IsKept delete
  get-IsKeyed s h w k sc e = elim (Result-cases (validate_client_sequence_number h.seq_no)) [
    | inl (u, v) ↦ w k sc (rw (get, v) at e)
    | inr (inl (x, v)) ↦
        let e2 = rw (get, v) at e in
        elim (Bool-cases (k == h.session_id)) [
          | inl same ↦ absurd (let e3 = rw same at e2 in cc)
          | inr other ↦ w k sc (rw other at e2)
        ]
    | inr (inr v) ↦ w k sc (rw (get, v) at e)
  ]

  -- A handler that `get` finds is that of a known session.
  pub get-known :
      (s : Sessions H) (h : Header) (n : H)
      → (get s h).1 ≡ ok (some n)
      → (sc : SessionContext H) × (s h.session_id ≡ some sc)
  unfolding get get_known
  get-known s h n e = elim (Option-cases (s h.session_id)) [
    | inr known ↦ known
    | inl unknown ↦ elim (Result-cases (validate_client_sequence_number h.seq_no)) [
      | inl (u, v) ↦ absurd (let e2 = rw (get, v, unknown) at e in cc)
      | inr (inl (x, v)) ↦ absurd (let e2 = rw (get, v) at e in cc)
      | inr (inr v) ↦ absurd (let e2 = rw (get, v) at e in cc)
    ]
  ]

  -- An even sequence number.
  pub get-even :
      (s : Sessions H) (h : Header)
      → h.seq_no % 256 % 2 ≡ 0
      → get s h ≡ (delete s h.session_id, err sequence_even)
  unfolding get validate_client_sequence_number
  get-even s h e = rw (get, validate_client_sequence_number, eq→== (h.seq_no % 256 % 2) 0 e) refl

  -- A sequence number that is not after the session's.
  pub get-stale :
      (s : Sessions H) (h : Header) (sc : SessionContext H)
      → h.seq_no % 256 % 2 ≢ 0
      → s h.session_id ≡ some sc
      → h.seq_no % 256 ≤ sc.header.seq_no % 256
      → get s h ≡ (s, err sequence_stale)
  unfolding get get_known validate_client_sequence_number validate_last_sequence
  get-stale s h sc odd known stale =
      let late : leb (h.seq_no % 256) (sc.header.seq_no % 256) ≡ true = ground arith in
      rw
        (
          get,
          validate_client_sequence_number,
          ne→== (h.seq_no % 256 % 2) 0 odd,
          known,
          get_known,
          validate_last_sequence,
          late,
        )
        refl
