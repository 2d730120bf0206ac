-- ===== src/Crypt/BadSecret/Decodes.antt =====
-- A body that one of the packets of its type decodes is not reported.
use tacquito.Base.{ℕ, ◌+◌, ◌≤◌, ◌≡◌, arith, false, Bytes}
use tacquito.Base.{Result, ok, ◌==◌}
use tacquito.Base.{◌⊎◌, inl, inr}
use tacquito.Fields.Header.{authenticate, authorize, accounting}
use tacquito.Authen.Start as AuthenStart
use tacquito.Authen.Continue as AuthenContinue
use tacquito.Authen.Reply as AuthenReply
use tacquito.Author.Request as AuthorRequest
use tacquito.Author.Reply as AuthorReply
use tacquito.Acct.Request as AcctRequest
use tacquito.Acct.Reply as AcctReply
use tacquito.Crypt.BadSecret.{counts, all_report}

-- The body is a packet of one of the kinds that the type allows.
pub data Decodes (b : Bytes) : ℕ → Type 0 where
  start :
      {t : ℕ} {a : AuthenStart.AuthenStart}
      → t ≡ authenticate
      → AuthenStart.unmarshal_binary b ≡ ok a
      → Decodes b t
  continue :
      {t : ℕ} {a : AuthenContinue.AuthenContinue}
      → t ≡ authenticate
      → AuthenContinue.unmarshal_binary b ≡ ok a
      → Decodes b t
  reply :
      {t : ℕ} {a : AuthenReply.AuthenReply}
      → t ≡ authenticate
      → AuthenReply.unmarshal_binary b ≡ ok a
      → Decodes b t
  author_request :
      {t : ℕ} {a : AuthorRequest.AuthorRequest}
      → t ≡ authorize
      → AuthorRequest.unmarshal_binary b ≡ ok a
      → Decodes b t
  author_reply :
      {t : ℕ} {a : AuthorReply.AuthorReply}
      → t ≡ authorize
      → AuthorReply.unmarshal_binary b ≡ ok a
      → Decodes b t
  acct_request :
      {t : ℕ} {a : AcctRequest.AcctRequest}
      → t ≡ accounting
      → AcctRequest.unmarshal_binary b ≡ ok a
      → Decodes b t
  acct_reply :
      {t : ℕ} {a : AcctReply.AcctReply}
      → t ≡ accounting
      → AcctReply.unmarshal_binary b ≡ ok a
      → Decodes b t

pub counts-le-one {ℓ} : {A : Type ℓ} (r : Result A) → counts r ≤ 1
counts-le-one r = ground arith

counts_ok {ℓ} : {A : Type ℓ} {a : A} (r : Result A) → r ≡ ok a → counts r ≡ 0
counts_ok r e = rw e

three-short :
    (x y z : ℕ) → x ≤ 1 → y ≤ 1 → z ≤ 1 → (x ≡ 0) ⊎ ((y ≡ 0) ⊎ (z ≡ 0)) → (x + y + z == 3) ≡ false
three-short x y z hx hy hz none_of = ground arith

two-short : (x y : ℕ) → x ≤ 1 → y ≤ 1 → (x ≡ 0) ⊎ (y ≡ 0) → (x + y == 2) ≡ false
two-short x y hx hy none_of = ground arith

module _ {ℓ} {A B : Type ℓ} (r : Result A) (s : Result B) where
  counts_two : (counts r ≡ 0) ⊎ (counts s ≡ 0) → (counts r + counts s == 2) ≡ false
  counts_two = two-short (counts r) (counts s) (counts-le-one r) (counts-le-one s)

  counts_three :
      {C : Type ℓ} (q : Result C)
      → (counts r ≡ 0) ⊎ ((counts s ≡ 0) ⊎ (counts q ≡ 0))
      → (counts r + counts s + counts q == 3) ≡ false
  counts_three q =
      three-short (counts r) (counts s) (counts q) (counts-le-one r) (counts-le-one s)
        (counts-le-one q)

pub all_report-Decodes : (b : Bytes) {t : ℕ} → Decodes b t → all_report t b ≡ false
unfolding all_report
all_report-Decodes b (start e h) = rw e (counts_three _ _ _ (inl (counts_ok _ h)))
all_report-Decodes b (continue e h) = rw e (counts_three _ _ _ (inr (inl (counts_ok _ h))))
all_report-Decodes b (reply e h) = rw e (counts_three _ _ _ (inr (inr (counts_ok _ h))))
all_report-Decodes b (author_request e h) = rw e (counts_two _ _ (inl (counts_ok _ h)))
all_report-Decodes b (author_reply e h) = rw e (counts_two _ _ (inr (counts_ok _ h)))
all_report-Decodes b (acct_request e h) = rw e (counts_two _ _ (inl (counts_ok _ h)))
all_report-Decodes b (acct_reply e h) = rw e (counts_two _ _ (inr (counts_ok _ h)))
