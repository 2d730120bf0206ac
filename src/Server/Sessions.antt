-- ===== src/Server/Sessions.antt =====
-- sessions.go: the sessions that a connection knows, a map from session identifiers. The lock, the
-- counters and the timers are left out. A session may be known with a nil handler.
pub mod Laws
use tacquito.Base.{
  ℕ, Bool, true, false, ◌==◌, if◌then◌else◌, Option, none, some, Result, ok, err, panic,
}
use tacquito.Fields.Header.{validate_client_sequence_number, validate_last_sequence}
use tacquito.Header.{Header}

pub record SessionContext (H : Type 0) : Type 0 where
  pub header : Header
  pub handler : Option H

abbrev pub Sessions : Type 0 → Type 0
Sessions H = ℕ → Option (SessionContext H)

module _ {H : Type 0} where
  abbrev store : Sessions H → ℕ → Option (SessionContext H) → Sessions H
  store s k v j = if j == k then v else s j

  unfoldable pub new_session_provider : Sessions H
  new_session_provider k = none

  unfoldable pub delete : Sessions H → ℕ → Sessions H
  delete s session = store s session none

  unfoldable pub set : Sessions H → Header → Option H → Sessions H
  set s h n = store s h.session_id (some (record { header = h; handler = n }))

  -- An unknown session is left alone.
  update_known : Option (SessionContext H) → Sessions H → Header → Option H → Sessions H
  update_known none s h n = s
  update_known (some sc) s h n = store s h.session_id (some (record { header = h; handler = n }))

  unfoldable pub update : Sessions H → Header → Option H → Sessions H
  unfolding update_known
  update s h n = update_known (s h.session_id) s h n

  -- The last sequence number is that of the session's header.
  get_known : Option (SessionContext H) → Header → Result (Option H)
  get_known none h = ok none
  get_known (some sc) h = elim (validate_last_sequence sc.header.seq_no h.seq_no) [
    | ok u ↦ ok sc.handler
    | err e ↦ err e
    | panic ↦ panic
  ]

  -- An even sequence number ends the session; the error closes the connection.
  unfoldable pub get : Sessions H → Header → Sessions H × Result (Option H)
  unfolding get_known
  get s h = elim (validate_client_sequence_number h.seq_no) [
    | ok u ↦ (s, get_known (s h.session_id) h)
    | err e ↦ (delete s h.session_id, err e)
    | panic ↦ (s, panic)
  ]
