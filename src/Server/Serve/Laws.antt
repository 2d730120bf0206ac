-- ===== src/Server/Serve/Laws.antt =====
-- One packet of the loop: which sessions it can change, and what a session is afterwards.
use tacquito.Base.{
  ℕ, ◌≤◌, ◌==◌, Bool-cases, ==→eq, eq→==, some-injective, ◌%◌, ◌≡◌, ◌≢◌, refl, sym, ◌∙◌, Bytes,
  Option, none, some, Result, ok, err, panic,
}
use tacquito.Base.{Option-cases, inl, inr}
use tacquito.Header.{Header}
use tacquito.Crypt.Connection.{write}
use tacquito.Server.Sessions.{SessionContext, Sessions, get, set, delete}
use tacquito.Server.Sessions.Laws.{
  IsKept, IsKeyed, delete-other, delete-same, set-other, set-same, update-other, update-same,
  get-ok, get-other, get-IsKeyed, get-known, get-even, get-stale,
}
use tacquito.Server.Response.{Request, Response, reply, deliver, next_handler, register_writer}
use tacquito.Server.Response.Laws.{reply-session_id, deliver-session_id}
use tacquito.Server.Serve.{Script, finish, call_reply, call_write, call_next, call_register_writer}
use tacquito.Server.Serve.{
  Step, closed, served, execute, initial, conclude, dispatch, resume, handle_request,
}

abbrev pub sessions_after : {H : Type 0} → Step H → Sessions H
sessions_after (closed s) = s
sessions_after (served s r) = s

-- What is left of the packet's own session after its handler.
abbrev left_over : {H : Type 0} → Response H → Option H → Option (SessionContext H)
left_over r none = none
left_over r (some n) = some (record { header = r.header; handler = some n })

-- The connection goes on only if the packet's session is either over, or waits under the header
-- of the last reply for the handler that was set.
unfoldable pub IsSettled : {H : Type 0} → ℕ → Step H → Type 0
IsSettled k (closed s) = IsKept k (s k)
IsSettled k (served s r) = (r.header.session_id ≡ k) × (s k ≡ left_over r r.next)

module _ {H : Type 0} (md5 : Bytes → Bytes) (secret : Bytes) where
  -- Whatever a handler does, the response stays in the session of its request.
  execute-session_id :
      (k : Script H) (r : Response H)
      → (execute md5 secret k r).header.session_id ≡ r.header.session_id
  unfolding execute next_handler register_writer
  execute-session_id finish r = refl
  execute-session_id (call_reply v k) r =
      execute-session_id (k (reply md5 secret r v).1) (reply md5 secret r v).0
      ∙ reply-session_id md5 secret r v
  execute-session_id (call_write p k) r =
      execute-session_id (k (write md5 secret p)) (deliver r (write md5 secret p))
      ∙ deliver-session_id r (write md5 secret p)
  execute-session_id (call_next n k) r = execute-session_id k (next_handler r n)
  execute-session_id (call_register_writer k) r = execute-session_id k (register_writer r)

  module _ (handle : H → Request → Script H) (entry : H) where
    conclude-other :
        (s : Sessions H) (h : Header) (r : Response H) (next : Option H) (j : ℕ)
        → r.header.session_id ≡ h.session_id
        → j ≢ h.session_id
        → sessions_after (conclude md5 secret handle entry s h r next) j ≡ s j
    unfolding conclude
    conclude-other s h r none j e other = delete-other s h.session_id j other
    conclude-other s h r (some n) j e other = update-other s r.header (some n) j (rw e other)

    dispatch-other :
        (s : Sessions H) (req : Request) (state : H) (j : ℕ)
        → j ≢ req.header.session_id
        → sessions_after (dispatch md5 secret handle entry s req state) j ≡ s j
    unfolding dispatch initial
    dispatch-other s req state j other =
        let r = execute md5 secret (handle state req) (initial req.header) in
        conclude-other s req.header r r.next j
          (execute-session_id (handle state req) (initial req.header)) other

    resume-other :
        (s : Sessions H) (req : Request) (state : Result (Option H)) (j : ℕ)
        → j ≢ req.header.session_id
        → sessions_after (resume md5 secret handle entry s req state) j ≡ s j
    unfolding resume
    resume-other s req (ok (some state)) j other = dispatch-other s req state j other
    resume-other s req (ok none) j other =
        dispatch-other (set s req.header none) req entry j other
        ∙ set-other s req.header none j other
    resume-other s req (err e) j other = refl
    resume-other s req panic j other = refl

    -- A packet changes no session but its own, whatever its handler does.
    pub handle_request-other :
        (s : Sessions H) (req : Request) (j : ℕ)
        → j ≢ req.header.session_id
        → sessions_after (handle_request md5 secret handle entry s req) j ≡ s j
    unfolding handle_request
    handle_request-other s req j other =
        resume-other (get s req.header).0 req (get s req.header).1 j other
        ∙ get-other s req.header j other

    conclude-IsSettled :
        (s : Sessions H) (h : Header) (r : Response H) (next : Option H) (sc : SessionContext H)
        → r.header.session_id ≡ h.session_id
        → r.next ≡ next
        → s h.session_id ≡ some sc
        → IsSettled h.session_id (conclude md5 secret handle entry s h r next)
    unfolding conclude IsSettled
    conclude-IsSettled s h r none sc e n known = (e, rw n (delete-same s h.session_id))
    conclude-IsSettled s h r (some n) sc e is known =
        (e, rw (← e, is) (update-same s r.header (some n) sc (rw e known)))

    dispatch-IsSettled :
        (s : Sessions H) (req : Request) (state : H) (sc : SessionContext H)
        → s req.header.session_id ≡ some sc
        → IsSettled req.header.session_id (dispatch md5 secret handle entry s req state)
    unfolding dispatch initial
    dispatch-IsSettled s req state sc known =
        let r = execute md5 secret (handle state req) (initial req.header) in
        conclude-IsSettled s req.header r r.next sc
          (execute-session_id (handle state req) (initial req.header)) refl known

    resume-IsSettled :
        (s : Sessions H) (req : Request) (state : Result (Option H))
        → IsKeyed s
        → ((n : H)
            → state ≡ ok (some n)
            → (sc : SessionContext H) × (s req.header.session_id ≡ some sc))
        → IsSettled req.header.session_id (resume md5 secret handle entry s req state)
    unfolding resume IsSettled
    resume-IsSettled s req (ok (some n)) keyed known =
        let (sc, e) = known n refl in dispatch-IsSettled s req n sc e
    resume-IsSettled s req (ok none) keyed known =
        dispatch-IsSettled (set s req.header none) req entry _ (set-same s req.header none)
    resume-IsSettled s req (err e) keyed known = keyed req.header.session_id
    resume-IsSettled s req panic keyed known = keyed req.header.session_id

    -- If each known session has its identifier and a handler, then after a packet the connection
    -- goes on only with the packet's session either deleted, where the handler set no next one, or
    -- stored under the response's header with the next handler; and where the connection is closed
    -- instead, the session, if it is still known, has its identifier and a handler.
    pub handle_request-IsSettled :
        (s : Sessions H) (req : Request)
        → IsKeyed s
        → IsSettled req.header.session_id (handle_request md5 secret handle entry s req)
    unfolding handle_request
    handle_request-IsSettled s req keyed =
        resume-IsSettled (get s req.header).0 req (get s req.header).1
          (get-IsKeyed s req.header keyed)
          (λ n found.
            let (same, _) = get-ok s req.header (some n) found in
            let (sc, known) = get-known s req.header n found in (sc, rw same known))

    IsSettled-IsKept : (k : ℕ) (step : Step H) → IsSettled k step → IsKept k (sessions_after step k)
    unfolding IsSettled IsKept
    IsSettled-IsKept k (closed s) kept sc e = kept sc e
    IsSettled-IsKept k (served s r) (same, left) sc e = elim (Option-cases r.next) [
      | inl over ↦ absurd (let l = rw over at left in cc)
      | inr (n, waits) ↦
          let l = rw waits at left in
          let is : sc ≡ record { header = r.header; handler = some n } =
            some-injective (sym e ∙ l) in
          (rw is same, (n, rw is refl))
    ]

    -- That each known session stands under its identifier and has a handler is kept by every packet,
    -- whatever the handlers do: the session without a handler, which is stored while the entry runs,
    -- does not last.
    pub handle_request-IsKeyed :
        (s : Sessions H) (req : Request)
        → IsKeyed s
        → IsKeyed (sessions_after (handle_request md5 secret handle entry s req))
    handle_request-IsKeyed s req keyed j = elim (Bool-cases (j == req.header.session_id)) [
      | inl same ↦ rw (==→eq j req.header.session_id same) (
          IsSettled-IsKept req.header.session_id (handle_request md5 secret handle entry s req)
            (handle_request-IsSettled s req keyed))
      | inr other ↦
          rw
            (handle_request-other s req j
              (λ e. (let e2 = rw (eq→== j req.header.session_id e) at other in cc)))
            (keyed j)
    ]

    -- In a known session, a sequence number whose low byte is even closes the connection and deletes
    -- the session, and an odd one that is not after the session's, low byte against low byte, closes
    -- the connection and changes no session; no handler runs.
    pub handle_request-refuses :
        (s : Sessions H) (req : Request) (sc : SessionContext H)
        → s req.header.session_id ≡ some sc
        → ((req.header.seq_no % 256 % 2 ≡ 0)
            → handle_request md5 secret handle entry s req
              ≡ closed (delete s req.header.session_id))
          × (req.header.seq_no % 256 % 2 ≢ 0
              → req.header.seq_no % 256 ≤ sc.header.seq_no % 256
              → handle_request md5 secret handle entry s req ≡ closed s)
    unfolding handle_request resume
    handle_request-refuses s req sc known = (
      λ even. rw (get-even s req.header even) refl,
      λ odd stale. rw (get-stale s req.header sc odd known stale) refl,
    )
