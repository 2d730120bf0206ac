-- ===== src/Server/Response/Agree.antt =====
-- That the registered writers change nothing for the client.
use tacquito.Base.{◌≡◌, refl, ap, subst, [], ◌∷◌, List, ◌++◌, Bytes, Result, ok, err, panic}
use tacquito.Header.{Header}
use tacquito.Server.Response.{
  Body, Response, marshal_body, reply_header, deliver, mirror, reply, reply_marshalled,
}
use tacquito.Server.Response.{next_handler, register_writer}

module _ {H : Type 0} where
  -- Two responses alike but for their writers.
  pub record Agree (r s : Response H) : Type 0 where
    pub header_same : r.header ≡ s.header
    pub next_same : r.next ≡ s.next
    pub sent_same : r.sent ≡ s.sent

  pub Agree-refl : (r : Response H) → Agree r r
  Agree-refl r = record { header_same = refl; next_same = refl; sent_same = refl }

  pub register_writer-Agree : (r s : Response H) → Agree r s → Agree (register_writer r) s
  unfolding register_writer
  register_writer-Agree r s a = record {
    header_same = a.header_same;
    next_same = a.next_same;
    sent_same = a.sent_same;
  }

  pub register_writers-Agree :
      (r s : Response H) → Agree r s → Agree (register_writer r) (register_writer s)
  unfolding register_writer
  register_writers-Agree r s a = record {
    header_same = a.header_same;
    next_same = a.next_same;
    sent_same = a.sent_same;
  }

  pub next_handler-Agree :
      (r s : Response H) (n : H) → Agree r s → Agree (next_handler r n) (next_handler s n)
  unfolding next_handler
  next_handler-Agree r s n a = record {
    header_same = a.header_same;
    next_same = refl;
    sent_same = a.sent_same;
  }

  mirror-Agree :
      (r s : Response H) (out : Result Bytes) → Agree r s → Agree (mirror r out) (mirror s out)
  unfolding mirror
  mirror-Agree r s (ok b) a = record {
    header_same = a.header_same;
    next_same = a.next_same;
    sent_same = a.sent_same;
  }
  mirror-Agree r s (err e) a = a
  mirror-Agree r s panic a = a

  pub deliver-Agree :
      (r s : Response H) (out : Result Bytes) → Agree r s → Agree (deliver r out) (deliver s out)
  unfolding deliver
  deliver-Agree r s (ok b) a = record {
    header_same = a.header_same;
    next_same = a.next_same;
    sent_same = ap (λ (t : List Bytes). t ++ (b ∷ [])) a.sent_same;
  }
  deliver-Agree r s (err e) a = a
  deliver-Agree r s panic a = a

  module _ (md5 : Bytes → Bytes) (secret : Bytes) where
    reply_marshalled-Agree :
        (r s : Response H) (h : Header) (m : Result Bytes)
        → Agree r s
        → Agree (reply_marshalled md5 secret r h m).0 (reply_marshalled md5 secret s h m).0
          × ((reply_marshalled md5 secret r h m).1 ≡ (reply_marshalled md5 secret s h m).1)
    unfolding reply_marshalled
    reply_marshalled-Agree r s h (err e) a = (a, refl)
    reply_marshalled-Agree r s h panic a = (a, refl)
    reply_marshalled-Agree r s h (ok b) a = (
      deliver-Agree _ _ _ (
          mirror-Agree (record r { header = h }) (record s { header = h }) _
            (record { header_same = refl; next_same = a.next_same; sent_same = a.sent_same })),
      refl,
    )

    -- `Reply` sends and returns the same.
    pub reply-Agree :
        (r s : Response H) (v : Body)
        → Agree r s
        → Agree (reply md5 secret r v).0 (reply md5 secret s v).0
          × ((reply md5 secret r v).1 ≡ (reply md5 secret s v).1)
    unfolding reply
    reply-Agree r s v a =
        subst
          (λ (h : Header).
            Agree (reply md5 secret r v).0
              (reply_marshalled md5 secret s (reply_header h v) (marshal_body v)).0
            × ((reply md5 secret r v).1
                ≡ (reply_marshalled md5 secret s (reply_header h v) (marshal_body v)).1))
          a.header_same (reply_marshalled-Agree r s (reply_header r.header v) (marshal_body v) a)
