-- ===== src/Config/Accounting/Laws.antt =====
-- What an accounter acknowledges, and that it has logged it.
use tacquito.Base.{
  ℕ, ◌≡◌, ◌≢◌, ◌⊎◌, inl, inr, refl, sym, ◌∙◌, arith, ◌≤◌, Bool, true, false, ◌==◌, ltb, Bool-cases,
}
use tacquito.Base.{
  [], ◌∷◌, Bytes, Option, none, some, Result, Result-cases, ok, ok-injective, some-injective,
}
use tacquito.Fields.Acct.{acct_reply_status_success}
use tacquito.Fields.Acct.{
  acct_flag_start, acct_flag_stop, acct_flag_watchdog, acct_flag_watchdog_with_update,
}
use tacquito.Acct.Request.{AcctRequest, unmarshal_binary}
use tacquito.Server.Response.{Request, acct_reply}
use tacquito.Server.Serve.{Script, finish, call_reply}
use tacquito.Handlers.{Handler}
use tacquito.Handlers.Denials.{DenyOnly}
use tacquito.Config.Accounting.{
  acct_replies, record_local, run_local, handle_local, record_syslog, run_syslog, handle_syslog,
}

-- A start, a stop, a watchdog that opens its session, or an update of a session under way.
abbrev pub Accepted : ℕ → ℕ → Type 0
Accepted flags seq_no =
    (flags ≡ acct_flag_start)
    ⊎ (flags ≡ acct_flag_stop)
    ⊎ ((flags ≡ acct_flag_watchdog) × (seq_no ≡ 1))
    ⊎ ((flags ≡ acct_flag_watchdog_with_update) × (3 ≤ seq_no))

-- One reply, of success.
abbrev pub Acknowledges : Script Handler → Type 0
Acknowledges (call_reply (acct_reply a) k) =
    (a.status ≡ acct_reply_status_success) × ((r : Result Bytes) → k r ≡ finish)
Acknowledges _ = true ≡ false

pub acct_replies-cases :
    (flags seq_no : ℕ)
    → (Accepted flags seq_no × Acknowledges (acct_replies flags seq_no))
      ⊎ ((Accepted flags seq_no → ⊥) × DenyOnly (acct_replies flags seq_no))
unfolding acct_replies
acct_replies-cases flags seq_no = elim (Bool-cases (flags == acct_flag_start)) [
  | inl start ↦ rw start (inl (ground arith, (refl, λ r. refl)))
  | inr n1 ↦ elim (Bool-cases (flags == acct_flag_stop)) [
    | inl stop ↦ rw (n1, stop) (inl (ground arith, (refl, λ r. refl)))
    | inr n2 ↦ elim (Bool-cases (flags == acct_flag_watchdog)) [
      | inl dog ↦ elim (Bool-cases (seq_no == 1)) [
        | inl first ↦ rw (n1, n2, dog, first) (inl (ground arith, (refl, λ r. refl)))
        | inr later ↦ rw (n1, n2, dog, later) (inr ((λ a. ground arith), (omega arith, λ r. tt)))
      ]
      | inr n3 ↦ elim (Bool-cases (flags == acct_flag_watchdog_with_update)) [
        | inl update ↦ elim (Bool-cases (ltb seq_no 3)) [
          | inl early ↦
              rw (n1, n2, n3, update, early) (inr ((λ a. ground arith), (omega arith, λ r. tt)))
          | inr late ↦ rw (n1, n2, n3, update, late) (inl (ground arith, (refl, λ r. refl)))
        ]
        | inr n4 ↦ rw (n1, n2, n3, n4) (inr ((λ a. ground arith), (omega arith, λ r. tt)))
      ]
    ]
  ]
]

module _ (marshal : AcctRequest → Option Bytes) (write : Bytes → Bool) where
  -- The record of a decoded request is accepted and taken by the log.
  abbrev Taken : ℕ → ℕ → Option Bytes → Type 0
  Taken flags seq_no o =
      (json : Bytes) × (o ≡ some json) × (write json ≡ true) × Accepted flags seq_no

  refused :
      (json : Bytes) {flags seq_no : ℕ} → write json ≡ false → Taken flags seq_no (some json) → ⊥
  refused json full (j, e, w, a) =
      let same : json ≡ j = some-injective e in
      let f : write json ≡ true = rw same w in let g = sym f ∙ full in cc

  record_syslog-cases :
      (req : Request) (body : AcctRequest) (o : Option Bytes)
      → ((t : Taken body.flags req.header.seq_no o) × ((record_syslog marshal write req body o).0
            ≡ t.0 ∷ [])
          × Acknowledges (record_syslog marshal write req body o).1)
        ⊎ ((Taken body.flags req.header.seq_no o → ⊥)
            × DenyOnly (record_syslog marshal write req body o).1)
  unfolding record_syslog
  record_syslog-cases req body none = inr (λ (j, e, w, a). cc, (omega arith, λ r. tt))
  record_syslog-cases req body (some json) = elim (Bool-cases (write json)) [
    | inr full ↦ inr (refused json full, rw full (omega arith, λ r. tt))
    | inl taken ↦ elim (acct_replies-cases body.flags req.header.seq_no) [
      | inl (accepted, success) ↦
          inl ((json, refl, taken, accepted), rw taken refl, rw taken success)
      | inr (unexpected, denies) ↦ inr (λ t. unexpected t.3, rw taken denies)
    ]
  ]

  -- The request decodes to an accepted record, which the log takes.
  abbrev pub Recordable : Request → Bytes → Type 0
  Recordable req json =
      (body : AcctRequest) × (unmarshal_binary req.body ≡ ok body)
      × (marshal body ≡ some json)
      × (write json ≡ true)
      × Accepted body.flags req.header.seq_no

  unread :
      (req : Request) (json : Bytes)
      → ((body : AcctRequest) → unmarshal_binary req.body ≢ ok body)
      → Recordable req json
      → ⊥
  unread req json h (body, decoded, m, w, a) = h body decoded

  untaken :
      (req : Request) (body : AcctRequest) (json : Bytes)
      → unmarshal_binary req.body ≡ ok body
      → (Taken body.flags req.header.seq_no (marshal body) → ⊥)
      → Recordable req json
      → ⊥
  untaken req body json e h (other, decoded, m, w, a) =
      let same : body ≡ other = ok-injective (sym e ∙ decoded) in h (json, rw same m, w, rw same a)

  -- The accounter of syslog.go logs the one record of the request and replies with a success, if
  -- the request decodes, its record is made and the log takes it, and it is a start, a stop, a
  -- watchdog with sequence number 1 or an update with sequence number 3 or more. If not, no reply
  -- is a success.
  pub handle_syslog-Recordable :
      (req : Request)
      → ((json : Bytes) × Recordable req json
          × ((handle_syslog marshal write req).0 ≡ json ∷ [])
          × Acknowledges (handle_syslog marshal write req).1)
        ⊎ ((((json : Bytes) × Recordable req json) → ⊥)
            × DenyOnly (handle_syslog marshal write req).1)
  unfolding handle_syslog run_syslog
  handle_syslog-Recordable req = elim (Result-cases (unmarshal_binary req.body)) [
    | inr (inl (x, e)) ↦ inr (
      λ (json, r). unread req json (λ b d. (let f = sym e ∙ d in cc)) r,
      rw (run_syslog, e) (omega arith, λ r. tt),
    )
    | inr (inr e) ↦
        inr
          (λ (json, r). unread req json (λ b d. (let f = sym e ∙ d in cc)) r, rw (run_syslog, e) tt)
    | inl (body, e) ↦ elim (record_syslog-cases req body (marshal body)) [
      | inl ((json, m, w, a), logged, success) ↦
          inl (json, (body, e, m, w, a), rw (run_syslog, e) logged, rw (run_syslog, e) success)
      | inr (refuted, denies) ↦
          inr (λ (json, r). untaken req body json e refuted r, rw (run_syslog, e) denies)
    ]
  ]

module _ (marshal : AcctRequest → Option Bytes) where
  record_local_eq :
      (req : Request) (body : AcctRequest) (o : Option Bytes)
      → record_local marshal req body o ≡ record_syslog marshal (λ json. true) req body o
  unfolding record_local record_syslog
  record_local_eq req body none = refl
  record_local_eq req body (some json) = refl

  -- local.go answers, and logs, as syslog.go does with a log that takes every record.
  pub handle_local-handle_syslog :
      (req : Request) → handle_local marshal req ≡ handle_syslog marshal (λ json. true) req
  unfolding handle_local handle_syslog run_local run_syslog
  handle_local-handle_syslog req = elim (Result-cases (unmarshal_binary req.body)) [
    | inl (body, e) ↦ rw (run_local, run_syslog, e) (record_local_eq req body (marshal body))
    | inr (inl (x, e)) ↦ rw (run_local, run_syslog, e) refl
    | inr (inr e) ↦ rw (run_local, run_syslog, e) refl
  ]
