-- ===== src/Crypt/BadSecret/Laws.antt =====
-- When a bad secret is reported, and what the reply says.
use tacquito.Base.{ℕ, ◌+◌, ◌*◌, ◌≤◌, ◌<◌, ◌≡◌, ◌↔◌, refl, arith, [], ◌∷◌, true, false, Bytes, codes}
use tacquito.Base.{some, Result, ok, err, bad_secret, get_or, length, IsBytes, ◌==◌}
use tacquito.Fields.Authen.{authen_status_error}
use tacquito.Fields.Author.{author_status_error}
use tacquito.Fields.Acct.{acct_reply_status_error}
use tacquito.Authen.Start.Codec.{unmarshal-bad_secret_authen_start as start-bad_secret}
use tacquito.Authen.Continue.Codec.{unmarshal-bad_secret_authen_continue as continue-bad_secret}
use tacquito.Authen.Reply.Codec.{unmarshal-bad_secret_authen_reply as reply-bad_secret}
use tacquito.Base.{◌⊎◌, inl, inr}
use tacquito.Fields.Header.{
  validate_header_type, flag_has, unencrypted_flag, authenticate, authorize, accounting,
}
use tacquito.Authen.Start as AuthenStart
use tacquito.Authen.Continue as AuthenContinue
use tacquito.Authen.Reply as AuthenReply
use tacquito.Author.Reply as AuthorReply
use tacquito.Acct.Reply as AcctReply
use tacquito.Fields.{validate_all}
use tacquito.Fields.Authen.{validate_authen_status}
use tacquito.Fields.Author.{
  validate_author_status, validate_author_server_msg, validate_author_data, validate_args,
}
use tacquito.Fields.Acct.{validate_acct_reply_status, validate_acct_server_msg, validate_acct_data}
use tacquito.Wire.{
  read_uint16, read_string, read_byte, read_arg_lens, read_args, is_all_ascii, arg_len_bytes,
  arg_bytes, args_len,
}
use tacquito.Packet.Codec.{whole}
use tacquito.Base.{◌%◌, ◌^◌}
use tacquito.Header.{Header}
use tacquito.Crypt.BadSecret.{counts, all_report, detect_bad_secret, reply_body}
use tacquito.Crypt.BadSecret.Decodes.{counts-le-one}

counts_iff {ℓ} : {A : Type ℓ} (r : Result A) → (counts r ≡ 1) ↔ (r ≡ err bad_secret)
counts_iff r = ((λ h. ground arith), (λ h. rw h))

sum_three :
    (x y z : ℕ) → x ≤ 1 → y ≤ 1 → z ≤ 1 → ((x + y + z == 3) ≡ true) ↔ ((x ≡ 1) × (y ≡ 1) × (z ≡ 1))
sum_three x y z hx hy hz = ((λ h. ground arith), (λ h. ground arith))

-- The two-byte number at an index.
abbrev word_at : Bytes → ℕ → ℕ
word_at b i = get_or b i 0 * 256 + get_or b (i + 1) 0

-- An authentication body is reported exactly if it has eight bytes at least, and the lengths that
-- it holds as a start, as a continue and as a reply packet each ask for more than there is.
pub all_report-authenticate :
    (b : Bytes)
    → IsBytes b
    → (all_report authenticate b ≡ true) ↔ (
        (8 ≤ length b)
        × (length b < 8 + (get_or b 4 0 + get_or b 5 0 + get_or b 6 0 + get_or b 7 0))
        × (length b < 5 + (word_at b 0 + word_at b 2))
        × (length b < 6 + (word_at b 2 + word_at b 4)))
unfolding all_report
all_report-authenticate b small =
    let s = AuthenStart.unmarshal_binary b in
    let c = AuthenContinue.unmarshal_binary b in
    let r = AuthenReply.unmarshal_binary b in
    let all =
      sum_three (counts s) (counts c) (counts r) (counts-le-one s) (counts-le-one c)
        (counts-le-one r) in
    let start_iff = start-bad_secret b in
    let continue_iff = continue-bad_secret b small in
    (
      λ h.
          let (hs, hc, hr) = all.0 h in
          let (long, by_start) = start_iff.0 ((counts_iff s).0 hs) in
          (
            long,
            by_start,
            (continue_iff.0 ((counts_iff c).0 hc)).1,
            (reply-bad_secret b small (omega arith)).0 ((counts_iff r).0 hr),
          ),
      λ h. all.1 (
        (counts_iff s).1 (start_iff.1 (h.0, h.1)),
        (counts_iff c).1 (continue_iff.1 (omega (arith, h), h.2)),
        (counts_iff r).1 ((reply-bad_secret b small (omega (arith, h))).1 h.3),
      ),
    )

-- The body is a reply with an error status and the text "bad secret", of the type's kind.
pub data Refuses (b : Bytes) : ℕ → Type 0 where
  authen :
      {t : ℕ} {a : AuthenReply.AuthenReply}
      → t ≡ authenticate
      → AuthenReply.unmarshal_binary b ≡ ok a
      → (a.status ≡ authen_status_error) × (a.server_msg ≡ codes "bad secret")
      → Refuses b t
  author :
      {t : ℕ} {a : AuthorReply.AuthorReply}
      → t ≡ authorize
      → AuthorReply.unmarshal_binary b ≡ ok a
      → (a.status ≡ author_status_error) × (a.server_msg ≡ codes "bad secret")
      → Refuses b t
  acct :
      {t : ℕ} {a : AcctReply.AcctReply}
      → t ≡ accounting
      → AcctReply.unmarshal_binary b ≡ ok a
      → (a.status ≡ acct_reply_status_error) × (a.server_msg ≡ codes "bad secret")
      → Refuses b t

-- `type-cases` reads the check of the header's type.
type-cases :
    (t : ℕ)
    → validate_header_type t ≡ ok tt
    → (t ≡ authenticate) ⊎ ((t ≡ authorize) ⊎ (t ≡ accounting))
unfolding validate_header_type
type-cases t h = ground arith

abbrev text : Bytes
text = codes "bad secret"

authen_reply-Refuses : (b : Bytes) × (reply_body authenticate ≡ ok b) × Refuses b authenticate
unfolding reply_body AuthenReply.marshal_binary AuthenReply.unmarshal_binary AuthenReply.validate
    validate_all validate_authen_status read_uint16 read_string
authen_reply-Refuses =
    let a : AuthenReply.AuthenReply = record {
      status = 7;
      flags = 0;
      server_msg = text;
      content = [];
    } in
    (7 ∷ 0 ∷ 0 ∷ 10 ∷ 0 ∷ 0 ∷ text, refl, authen {a = a} refl refl (refl, refl))

author_reply-Refuses : (b : Bytes) × (reply_body authorize ≡ ok b) × Refuses b authorize
unfolding reply_body AuthorReply.marshal_binary AuthorReply.unmarshal_binary AuthorReply.validate
    validate_all validate_author_status validate_author_server_msg validate_author_data
    validate_args read_uint16 read_string read_byte read_arg_lens read_args is_all_ascii
    arg_len_bytes arg_bytes args_len
author_reply-Refuses =
    let a : AuthorReply.AuthorReply = record {
      status = 17;
      args = [];
      server_msg = text;
      content = [];
    } in
    (17 ∷ 0 ∷ 0 ∷ 10 ∷ 0 ∷ 0 ∷ text, refl, author {a = a} refl refl (refl, refl))

acct_reply-Refuses : (b : Bytes) × (reply_body accounting ≡ ok b) × Refuses b accounting
unfolding reply_body AcctReply.marshal_binary AcctReply.unmarshal_binary AcctReply.validate
    validate_all validate_acct_reply_status validate_acct_server_msg validate_acct_data read_uint16
    read_string read_byte is_all_ascii
acct_reply-Refuses =
    let a : AcctReply.AcctReply = record { status = 2; server_msg = text; content = [] } in
    (0 ∷ 10 ∷ 0 ∷ 0 ∷ 2 ∷ text, refl, acct {a = a} refl refl (refl, refl))

reply_body-Refuses :
    (t : ℕ) → validate_header_type t ≡ ok tt → (b : Bytes) × (reply_body t ≡ ok b) × Refuses b t
reply_body-Refuses t h = elim (type-cases t h) [
  | inl e ↦ rw e authen_reply-Refuses
  | inr (inl e) ↦ rw e author_reply-Refuses
  | inr (inr e) ↦ rw e acct_reply-Refuses
]

-- For a header of a known type without the unencrypted flag, a body that every decoder of that type
-- reports gives a reply under the same header with sequence number 1 and the reply's length, whose
-- body is a reply of the type's kind with an error status and the text "bad secret".
pub detect_bad_secret-Refuses :
    (h : Header) (b : Bytes)
    → validate_header_type h.type ≡ ok tt
    → flag_has h.flags unencrypted_flag ≡ false
    → all_report h.type b ≡ true
    → (r : Bytes) × (detect_bad_secret h b
        ≡ ok (some (whole (record h { seq_no = 1; len = length r % 2 ^ 32 }) r)))
      × Refuses r h.type
unfolding detect_bad_secret
detect_bad_secret-Refuses h b known coded bad =
    let (r, made, says) = reply_body-Refuses h.type known in (r, rw (coded, bad, made), says)
