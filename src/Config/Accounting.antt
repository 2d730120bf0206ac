-- ===== src/Config/Accounting.antt =====
-- cmds/server/config/accounters: local.go and syslog.go. What `json.Marshal` makes of a packet is a
-- parameter, as is the writer of syslog; a log is the list of the records given to it.
pub mod Laws
use tacquito.Base.{
  ℕ, ◌==◌, ltb, if◌then◌else◌, List, [], ◌∷◌, Bytes, codes, Bool, Option, none, some, Result, ok,
  err, panic,
}
use tacquito.Fields.Acct.{acct_reply_status_success, acct_reply_status_error}
use tacquito.Fields.Acct.{
  acct_flag_start, acct_flag_stop, acct_flag_watchdog, acct_flag_watchdog_with_update,
}
use tacquito.Acct.Request.{AcctRequest, unmarshal_binary}
use tacquito.Server.Response.{Request}
use tacquito.Server.Serve.{Script, finish}
use tacquito.Handlers.{Handler, reply_acct}

-- The switch on the flags, by the sequence number of the packet.
unfoldable pub acct_replies : ℕ → ℕ → Script Handler
acct_replies flags seq_no =
    if flags == acct_flag_start
    then reply_acct acct_reply_status_success (codes "success, logging started")
    else if flags == acct_flag_stop
    then reply_acct acct_reply_status_success (codes "success, logging stopped")
    else if flags == acct_flag_watchdog
    then (if seq_no == 1
        then reply_acct acct_reply_status_success (codes "success, watchdog")
        else reply_acct acct_reply_status_error (codes "invalid sequence number"))
    else if flags == acct_flag_watchdog_with_update
    then (if ltb seq_no 3
        then reply_acct acct_reply_status_error (codes "invalid sequence number")
        else reply_acct acct_reply_status_success (codes "success, watchdog update"))
    else reply_acct acct_reply_status_error (codes "unexpected accounting flag")

abbrev pub failed_to_log : Script Handler
failed_to_log = reply_acct acct_reply_status_error (codes "failed to log accounting message")

module _ (marshal : AcctRequest → Option Bytes) where
  -- What is logged, and the replies.
  record_local : Request → AcctRequest → Option Bytes → List Bytes × Script Handler
  record_local req body none = ([], failed_to_log)
  record_local req body (some json) = (json ∷ [], acct_replies body.flags req.header.seq_no)

  run_local : Request → Result AcctRequest → List Bytes × Script Handler
  unfolding record_local
  run_local req (err e) = ([], reply_acct acct_reply_status_error (codes "accounting failure"))
  run_local req panic = ([], finish)
  run_local req (ok body) = record_local req body (marshal body)

  -- `Accounter.Handle` of local.go.
  unfoldable pub handle_local : Request → List Bytes × Script Handler
  unfolding run_local
  handle_local req = run_local req (unmarshal_binary req.body)

  -- `write` is whether the system log takes a record.
  module _ (write : Bytes → Bool) where
    record_syslog : Request → AcctRequest → Option Bytes → List Bytes × Script Handler
    record_syslog req body none = ([], failed_to_log)
    record_syslog req body (some json) =
        if write json
        then (json ∷ [], acct_replies body.flags req.header.seq_no)
        else ([], failed_to_log)

    run_syslog : Request → Result AcctRequest → List Bytes × Script Handler
    unfolding record_syslog
    run_syslog req (err e) = ([], reply_acct acct_reply_status_error (codes "accounting failure"))
    run_syslog req panic = ([], finish)
    run_syslog req (ok body) = record_syslog req body (marshal body)

    -- `Accounter.Handle` of syslog.go.
    unfoldable pub handle_syslog : Request → List Bytes × Script Handler
    unfolding run_syslog
    handle_syslog req = run_syslog req (unmarshal_binary req.body)
