-- ===== src/Server/Response.antt =====
-- handlers.go: `response`, `Request` and `Reply`. Contexts and loggers are left out.
pub mod Laws
pub mod Agree
use tacquito.Base.{ℕ, zero, suc, ◌+◌, List, [], ◌∷◌, ◌++◌, ◌==◌, if◌then◌else◌, Bytes}
use tacquito.Base.{Option, none, some, Result, ok, err, panic}
use tacquito.Fields.Authen.{authen_status_restart}
use tacquito.Authen.Reply as AuthenReply
use tacquito.Author.Reply as AuthorReply
use tacquito.Acct.Reply as AcctReply
use tacquito.Header.{Header, new_header, set_header_version, set_header_type, set_header_seq_no}
use tacquito.Header.{set_header_flag, set_header_session_id}
use tacquito.Packet.{Packet, new_packet, set_packet_header, set_packet_body}
use tacquito.Packet
use tacquito.Crypt.Connection.{write}

pub record Request : Type 0 where
  pub header : Header
  pub body : Bytes

-- What the handlers pass to `Reply`.
pub data Body : Type 0 where
  authen_reply : AuthenReply.AuthenReply → Body
  author_reply : AuthorReply.AuthorReply → Body
  acct_reply : AcctReply.AcctReply → Body

unfoldable pub marshal_body : Body → Result Bytes
marshal_body (authen_reply a) = AuthenReply.marshal_binary a
marshal_body (author_reply a) = AuthorReply.marshal_binary a
marshal_body (acct_reply a) = AcctReply.marshal_binary a

-- `sent` holds what was written to the connection, and `mirrored` what each registered writer was
-- given; `writers` counts them.
pub record Response (H : Type 0) : Type 0 where
  pub header : Header
  pub next : Option H
  pub writers : ℕ
  pub mirrored : List Bytes
  pub sent : List Bytes

abbrev pub replicate : ℕ → Bytes → List Bytes
replicate zero b = []
replicate (suc n) b = b ∷ replicate n b

-- A restart begins again at 1.
unfoldable pub reply_seq_no : ℕ → Body → ℕ
reply_seq_no seq_no (authen_reply a) = if a.status == authen_status_restart then 1 else seq_no + 1
reply_seq_no seq_no (author_reply a) = seq_no + 1
reply_seq_no seq_no (acct_reply a) = seq_no + 1

unfoldable pub reply_header : Header → Body → Header
unfolding reply_seq_no
reply_header h v = new_header (
    set_header_version h.version
    ∷ set_header_type h.type
    ∷ set_header_seq_no (reply_seq_no h.seq_no v)
    ∷ set_header_flag h.flags
    ∷ set_header_session_id h.session_id
    ∷ [])

module _ {H : Type 0} where
  unfoldable pub next_handler : Response H → H → Response H
  next_handler r n = record r { next = some n }

  unfoldable pub register_writer : Response H → Response H
  register_writer r = record r { writers = r.writers + 1 }

  mirror : Response H → Result Bytes → Response H
  mirror r (ok b) = record r { mirrored = r.mirrored ++ replicate r.writers b }
  mirror r (err e) = r
  mirror r panic = r

  unfoldable pub deliver : Response H → Result Bytes → Response H
  deliver r (ok b) = record r { sent = r.sent ++ (b ∷ []) }
  deliver r (err e) = r
  deliver r panic = r

  module _ (md5 : Bytes → Bytes) where
    -- The header is replaced before the packet is written, and stays replaced if the write fails.
    reply_marshalled : Bytes → Response H → Header → Result Bytes → Response H × Result Bytes
    reply_marshalled secret r header (err e) = (r, err e)
    reply_marshalled secret r header panic = (r, panic)
    reply_marshalled secret r header (ok b) =
        let p = new_packet (set_packet_header header ∷ set_packet_body b ∷ []) in
        let mirrored = mirror (record r { header = header }) (Packet.marshal_binary p) in
        let out = write md5 secret (some p) in (deliver mirrored out, out)

    unfoldable pub reply : Bytes → Response H → Body → Response H × Result Bytes
    unfolding reply_marshalled mirror deliver
    reply secret r v = reply_marshalled secret r (reply_header r.header v) (marshal_body v)
