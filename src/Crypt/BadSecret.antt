-- ===== src/Crypt/BadSecret.antt =====
-- crypt.go: `detectBadSecret` and `badSecretReply`.
pub mod Decodes
pub mod Laws
use tacquito.Base.{ℕ, ◌+◌, List, [], ◌∷◌, Bool, ◌==◌, if◌then◌else◌, Bytes, codes}
use tacquito.Base.{Option, none, some, Result, ok, err, panic, ◌>>=◌, Error, bad_secret}
use tacquito.Fields.Header.{flag_has, unencrypted_flag, authenticate, authorize, accounting}
use tacquito.Fields.Authen.{authen_status_error}
use tacquito.Fields.Author.{author_status_error}
use tacquito.Fields.Acct.{acct_reply_status_error}
use tacquito.Authen.Start as AuthenStart
use tacquito.Authen.Continue as AuthenContinue
use tacquito.Authen.Reply as AuthenReply
use tacquito.Authen.Reply.{new_authen_reply, set_authen_reply_status, set_authen_reply_server_msg}
use tacquito.Author.Request as AuthorRequest
use tacquito.Author.Reply as AuthorReply
use tacquito.Author.Reply.{new_author_reply, set_author_reply_status, set_author_reply_server_msg}
use tacquito.Acct.Request as AcctRequest
use tacquito.Acct.Reply as AcctReply
use tacquito.Acct.Reply.{new_acct_reply, set_acct_reply_status, set_acct_reply_server_msg}
use tacquito.Header.{Header}
use tacquito.Packet.{Packet, new_packet, set_packet_header, set_packet_body}

-- `errors.As(err, &badSecret)` counts one.
abbrev pub counts {ℓ} : {A : Type ℓ} → Result A → ℕ
counts (err bad_secret) = 1
counts _ = 0

-- The marshalled reply for the request's type.
unfoldable pub reply_body : ℕ → Result Bytes
reply_body t =
    if t == authenticate
    then AuthenReply.marshal_binary (
        new_authen_reply (
          set_authen_reply_status authen_status_error
          ∷ set_authen_reply_server_msg (codes "bad secret")
          ∷ []))
    else if t == authorize
    then AuthorReply.marshal_binary (
        new_author_reply (
          set_author_reply_status author_status_error
          ∷ set_author_reply_server_msg (codes "bad secret")
          ∷ []))
    else if t == accounting
    then AcctReply.marshal_binary (
        new_acct_reply (
          set_acct_reply_status acct_reply_status_error
          ∷ set_acct_reply_server_msg (codes "bad secret")
          ∷ []))
    else err Error.unknown_header_type

-- The request's header is reused, with its sequence number set to 1.
unfoldable pub bad_secret_reply : Header → Result Packet
unfolding reply_body
bad_secret_reply h = do
  b ← reply_body h.type
  ok (new_packet (set_packet_header (record h { seq_no = 1 }) ∷ set_packet_body b ∷ []))

-- Every kind of packet that the header's type allows is tried on the body, and the secret is bad
-- if all of them say so.
unfoldable pub all_report : ℕ → Bytes → Bool
all_report t b =
    if t == authenticate
    then counts (AuthenStart.unmarshal_binary b)
        + counts (AuthenContinue.unmarshal_binary b)
        + counts (AuthenReply.unmarshal_binary b)
      == 3
    else if t == authorize
    then counts (AuthorRequest.unmarshal_binary b) + counts (AuthorReply.unmarshal_binary b) == 2
    else if t == accounting
    then counts (AcctRequest.unmarshal_binary b) + counts (AcctReply.unmarshal_binary b) == 2
    else Bool.false

-- On the header and the body of a packet that was read.
unfoldable pub detect_bad_secret : Header → Bytes → Result (Option Packet)
unfolding all_report bad_secret_reply
detect_bad_secret h b =
    if flag_has h.flags unencrypted_flag
    then ok none
    else if all_report h.type b
    then (bad_secret_reply h >>= λ p. ok (some p))
    else ok none
