-- ===== src/Handlers/Span/Laws.antt =====
-- Which packets the writer of the span handler copies, and that it does not panic on a packet that
-- says its body's length.
use tacquito.Base.{
  ℕ, ◌≡◌, ◌≢◌, ◌↔◌, ◌⊎◌, inl, inr, refl, sym, ◌∙◌, arith, Bool, true, false, not, [], ◌∷◌,
}
use tacquito.Base.{
  append-nil, length, Bytes, codes, Option, none, some, Result, ok, err, panic, ◌>>=◌, ◌>>◌,
}
use tacquito.Header.{Header}
use tacquito.Header.Codec.{IsTyped, received}
use tacquito.Packet
use tacquito.Packet.Codec.{whole, unmarshal-marshal_packet}
use tacquito.Base.{Option-cases, some-injective, if◌then◌else◌, client_ip_mismatch}
use tacquito.Base.{inactive_connection}
use tacquito.Report.Total.{request_fields-total}
use tacquito.Base.{Bool-cases, switch_addr_mismatch}
use tacquito.Text.Laws.{equals→eq, equals-ne, equals_refl}
use tacquito.Text.{equals}
use tacquito.Report.Maps.{FieldMap, field}
use tacquito.Report.Requests.{request_fields, request_of}
use tacquito.Handlers.Span.{
  Writer, span_write, check_switch, check_packet_type, check_client, decoded, other_client,
}

three_checks {ℓ} :
    {A : Type ℓ} (a b c : Result (Unit {0})) (v : A)
    → ((a >> (b >> (c >> ok v))) ≡ ok v) ↔ ((a ≡ ok tt) × (b ≡ ok tt) × (c ≡ ok tt))
three_checks (ok u) (ok u') (ok u'') v = ((λ h. (refl, refl, refl)), (λ h. refl))
three_checks panic b c v = ((λ h. cc), (λ h. cc h.0))
three_checks (err e) b c v = ((λ h. cc), (λ h. cc h.0))
three_checks (ok u) panic c v = ((λ h. cc), (λ h. cc h.1))
three_checks (ok u) (err e) c v = ((λ h. cc), (λ h. cc h.1))
three_checks (ok u) (ok u') panic v = ((λ h. cc), (λ h. cc h.2))
three_checks (ok u) (ok u') (err e) v = ((λ h. cc), (λ h. cc h.2))

check_switch_iff :
    (switch_addr remote : Bytes)
    → (check_switch switch_addr remote ≡ ok tt) ↔ ((switch_addr ≡ []) ⊎ (remote ≡ switch_addr))
unfolding check_switch
check_switch_iff [] remote = ((λ h. inl refl), (λ h. refl))
check_switch_iff (c ∷ s) remote = elim (Bool-cases (equals remote (c ∷ s))) [
  | inl e ↦ ((λ h. inr (equals→eq remote (c ∷ s) e)), (λ h. rw e refl))
  | inr e ↦ (
    (λ h. absurd (let bad : err switch_addr_mismatch ≡ ok tt = rw e at h in cc)),
    (λ h. elim h [
      | inl z ↦ absurd (let z' = z in cc)
      | inr z ↦ absurd (equals-ne remote (c ∷ s) e z)
    ]),
  )
]

check_packet_type_iff :
    (packet_type : ℕ) (h : Header) (b : Bytes)
    → (check_packet_type packet_type (whole h b) ≡ ok tt)
      ↔ ((packet_type ≡ 0) ⊎ (h.type ≡ packet_type))
unfolding check_packet_type
check_packet_type_iff packet_type h b = ((λ e. ground arith), (λ e. ground arith))

-- No address of a client among the fields but the one.
abbrev pub OfClient : Bytes → Option FieldMap → Type 0
OfClient rem_addr none = Unit {0}
OfClient rem_addr (some fields) =
    (v : Bytes) → field fields (codes "rem-addr") ≡ some v → v ≡ rem_addr

negated : (b : Bool) → not b ≡ false → b ≡ true
negated b h = ground arith

ours : (u v s : Bytes) → not (equals u s) ≡ false → some u ≡ some v → v ≡ s
ours u v s h e = sym (some-injective e) ∙ equals→eq u s (negated (equals u s) h)

other_client_iff :
    (rem_addr : Bytes) (m : Option FieldMap)
    → (other_client rem_addr m ≡ false) ↔ OfClient rem_addr m
unfolding other_client
other_client_iff rem_addr none = ((λ h. tt), (λ h. refl))
other_client_iff rem_addr (some fields) = elim (Option-cases (field fields (codes "rem-addr"))) [
  | inl e ↦ (
    (λ h v f. absurd (let bad : none ≡ some v = sym e ∙ f in cc)),
    (λ h. rw (other_client, e) refl),
  )
  | inr e ↦ (
    (λ h v f. ours e.0 v rem_addr (rw (other_client, e.1) at h) (sym e.1 ∙ f)),
    (λ h. rw (other_client, e.1, h e.0 e.1, equals_refl rem_addr) refl),
  )
]

abbrev verdict : Bytes → Option FieldMap → Result (Unit {0})
verdict rem_addr fields = if other_client rem_addr fields then err client_ip_mismatch else ok tt

client_verdict :
    (rem_addr : Bytes) (r : Result (Option FieldMap))
    → ((r >>= λ fields. verdict rem_addr fields) ≡ ok tt)
      ↔ ((m : Option FieldMap) × (r ≡ ok m) × OfClient rem_addr m)
client_verdict rem_addr (ok m) = elim (Bool-cases (other_client rem_addr m)) [
  | inl e ↦ (
    (λ h. absurd (let bad : err client_ip_mismatch ≡ ok tt = rw e at h in cc)),
    (λ h. absurd (let hit = (other_client_iff rem_addr h.0).1 h.2 in cc)),
  )
  | inr e ↦ ((λ h. (m, refl, (other_client_iff rem_addr m).0 e)), (λ h. rw e refl))
]
client_verdict rem_addr (err e) =
    ((λ h. absurd (let h' = h in cc)), (λ h. absurd (let h' = h.1 in cc)))
client_verdict rem_addr panic =
    ((λ h. absurd (let h' = h in cc)), (λ h. absurd (let h' = h.1 in cc)))

check_client_iff :
    (rem_addr : Bytes) (h : Header) (b : Bytes)
    → (check_client rem_addr (whole h b) ≡ ok tt) ↔ (
        (rem_addr ≡ [])
        ⊎ ((m : Option FieldMap) × (request_fields
                (λ key. none)
                []
                (record { header = h; body = b })
              ≡ ok m)
            × OfClient rem_addr m))
unfolding check_client request_of
check_client_iff [] h b = ((λ e. inl refl), (λ e. refl))
check_client_iff (c ∷ s) h b =
    let verdict =
      client_verdict (c ∷ s) (request_fields (λ key. none) [] (record { header = h; body = b })) in
    (
      (λ e. inr (verdict.0 e)),
      (λ e. elim e [ inl z ↦ absurd (let z' = z in cc) | inr z ↦ verdict.1 z ]),
    )

-- A packet that says its body's length, as `MarshalBinary` gives it, is written to the connection
-- that the writer has to the span host exactly if `switchAddr` is not configured or is the remote
-- address of that connection, which is the span host's and not that of the switch whose packet it
-- is; the packet type is not configured or is the packet's; and `remAddr` is not configured, or the
-- fields that the packet is read as have no `rem-addr` other than it.
pub span_write-packet_iff :
    (w : Writer) (remote : Bytes) (h : Header) (b p : Bytes)
    → w.conn ≡ some remote
    → IsTyped h
    → h.len ≡ length b
    → Packet.marshal_binary (whole h b) ≡ ok p
    → (span_write w p ≡ ok p) ↔ (
        ((w.switch_addr ≡ []) ⊎ (remote ≡ w.switch_addr))
        × ((w.packet_type ≡ 0) ⊎ (h.type ≡ w.packet_type))
        × ((w.rem_addr ≡ [])
            ⊎ ((m : Option FieldMap) × (request_fields
                    (λ key. none)
                    []
                    (record { header = received h; body = b })
                  ≡ ok m)
                × OfClient w.rem_addr m)))
unfolding span_write decoded
span_write-packet_iff w remote h b p connected t same m =
    let e : Packet.unmarshal_binary (some p) [] ≡ ok (whole (received h) b) =
      rw append-nil at (unmarshal-marshal_packet h b p [] [] t same m) in
    let three =
      three_checks (check_switch w.switch_addr remote)
        (check_packet_type w.packet_type (whole (received h) b))
        (check_client w.rem_addr (whole (received h) b)) p in
    let switch = check_switch_iff w.switch_addr remote in
    let type = check_packet_type_iff w.packet_type (received h) b in
    let client = check_client_iff w.rem_addr (received h) b in
    rw (connected, e)
      (
        (λ x. let y = three.0 x in (switch.0 y.0, type.0 y.1, client.0 y.2)),
        (λ x. three.1 (switch.1 x.0, type.1 x.1, client.1 x.2)),
      )

three_total {ℓ} :
    {A : Type ℓ} (a b c : Result (Unit {0})) (v : A)
    → a ≢ panic
    → b ≢ panic
    → c ≢ panic
    → (a >> (b >> (c >> ok v))) ≢ panic
three_total (ok u) (ok u') (ok u'') v h k l = λ e. cc
three_total panic b c v h k l = absurd (h refl)
three_total (err e) b c v h k l = λ e. cc
three_total (ok u) panic c v h k l = absurd (k refl)
three_total (ok u) (err e) c v h k l = λ e. cc
three_total (ok u) (ok u') panic v h k l = absurd (l refl)
three_total (ok u) (ok u') (err e) v h k l = λ e. cc

switch_total : (switch_addr remote : Bytes) → check_switch switch_addr remote ≢ panic
unfolding check_switch
switch_total switch_addr remote = λ e. ground arith

type_total :
    (packet_type : ℕ) (h : Header) (b : Bytes) → check_packet_type packet_type (whole h b) ≢ panic
unfolding check_packet_type
type_total packet_type h b = λ e. ground arith

verdict_total :
    (rem_addr : Bytes) (r : Result (Option FieldMap))
    → r ≢ panic
    → (r >>= λ fields. verdict rem_addr fields) ≢ panic
verdict_total rem_addr (ok m) h = λ e. ground arith
verdict_total rem_addr (err e) h = λ e. cc
verdict_total rem_addr panic h = absurd (h refl)

client_total :
    (rem_addr : Bytes) (h : Header) (b : Bytes) → check_client rem_addr (whole h b) ≢ panic
unfolding check_client request_of
client_total [] h b = λ e. cc
client_total (c ∷ s) h b =
    verdict_total (c ∷ s) (request_fields (λ key. none) [] (record { header = h; body = b }))
      (request_fields-total (λ key. none) [] (record { header = h; body = b }))

-- The filter does not panic on such a packet.
pub span_write-total :
    (w : Writer) (h : Header) (b p : Bytes)
    → IsTyped h
    → h.len ≡ length b
    → Packet.marshal_binary (whole h b) ≡ ok p
    → span_write w p ≢ panic
unfolding span_write decoded
span_write-total w h b p t same m = elim (Option-cases w.conn) [
  | inl e ↦ λ f. let bad : err inactive_connection ≡ panic = rw e at f in cc
  | inr e ↦ λ f.
      let u : Packet.unmarshal_binary (some p) [] ≡ ok (whole (received h) b) =
        rw append-nil at (unmarshal-marshal_packet h b p [] [] t same m) in
      three_total (check_switch w.switch_addr e.0)
        (check_packet_type w.packet_type (whole (received h) b))
        (check_client w.rem_addr (whole (received h) b)) p (switch_total w.switch_addr e.0)
        (type_total w.packet_type (received h) b) (client_total w.rem_addr (received h) b)
        (rw (e.1, u) at f)
]
