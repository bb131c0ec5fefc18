-- ===== src/ReliableUdp/Order.antt =====
-- ReliableUdp.antt: the payloads come out in the order in which they were sent.
use ultra_net.Prelude.{
  ℕ, zero, suc, ◌+◌, ◌≤◌, ◌<◌, ◌^◌, ◌≡◌, refl, sym, ap, ◌∙◌, true, false, List, [], ◌∷◌, ◌++◌, some,
  arith, ltb, length, drop, Bytes, ◌==◌, Bool-cases, Option-cases, inl, inr, ◌⊎◌, subst, get_elem?,
  u32, All,
}
use ultra_net.ReliableUdp.{
  PacketHeader, send_packet, ReliableUdp, receive, insert, find, erase, Recv, undefined, nothing,
  delivers, deliver, recv, recv_all, new,
}
use ultra_net.ReliableUdp.Buffer.{find-erase, find-insert}
use ultra_net.ReliableUdp.Header.{IsPacket, receive-send_packet, length-send_packet}

-- A datagram that carries one of the messages under its number.
pub record IsSent (msgs : List Bytes) (d : Bytes) : Type 0 where
  pub header : PacketHeader
  pub message : Bytes
  pub packet : IsPacket header message
  pub numbered : get_elem? msgs header.seq ≡ some message
  pub datagram : d ≡ send_packet header message

-- What is buffered is a message under its number.
pub record IsOrdered (msgs : List Bytes) (s : ReliableUdp) : Type 0 where
  pub next : s.next_recv_seq ≤ length msgs
  pub buffered : (k : ℕ) (b : Bytes) → find k s.recv_buffer ≡ some b → get_elem? msgs k ≡ some b

receive-IsOrdered :
    (msgs : List Bytes) (s : ReliableUdp) (d : Bytes)
    → IsOrdered msgs s
    → IsSent msgs d
    → (s' : ReliableUdp) × (receive s d ≡ some s')
      × (s'.next_recv_seq ≡ s.next_recv_seq)
      × IsOrdered msgs s'
receive-IsOrdered msgs s d v w =
    let h = w.header in
    let m = w.message in
    let got = ap (receive s) w.datagram ∙ receive-send_packet s h m w.packet in
    elim (Bool-cases (ltb h.seq s.next_recv_seq)) [
      | inl t ↦ (
        record s { has_peer = true },
        got ∙ rw t refl,
        refl,
        record { next = v.next; buffered = v.buffered },
      )
      | inr o ↦ (
        record s {
          has_peer = true;
          last_recv_seq = h.seq;
          recv_buffer = insert h.seq m s.recv_buffer;
        },
        got ∙ rw o refl,
        refl,
        record {
          next = v.next;
          buffered = λ k b e. elim (find-insert h.seq k s.recv_buffer m b e) [
            | inl (same, is) ↦ ap (get_elem? msgs) same ∙ w.numbered ∙ ap some is
            | inr f ↦ v.buffered k b f
          ];
        },
      )
    ]

-- A message under its number is the first of those from that number on.
drop-get_elem? :
    (msgs : List Bytes) (k : ℕ) (b : Bytes)
    → get_elem? msgs k ≡ some b
    → (drop k msgs ≡ b ∷ drop (suc k) msgs) × (k < length msgs)
drop-get_elem? [] k b h = absurd (cc h)
drop-get_elem? (m ∷ msgs) zero b h = (ground (arith, h), omega arith)
drop-get_elem? (m ∷ msgs) (suc k) b h =
    let (e, l) = drop-get_elem? msgs k b h in (e, omega (arith, l))

-- What a call that delivers gives, and the state behind it.
pub record IsNext (msgs : List Bytes) (s : ReliableUdp) (b : Bytes) (s' : ReliableUdp)
    : Type 0 where
  pub message : drop s.next_recv_seq msgs ≡ b ∷ drop s'.next_recv_seq msgs
  pub ordered : IsOrdered msgs s'

deliver-IsNext :
    (msgs : List Bytes) (s : ReliableUdp) (b : Bytes)
    → length msgs < 2 ^ 32
    → IsOrdered msgs s
    → find s.next_recv_seq s.recv_buffer ≡ some b
    → IsNext msgs s b (record s {
      next_recv_seq = u32 (s.next_recv_seq + 1);
      recv_buffer = erase s.next_recv_seq s.recv_buffer;
    })
deliver-IsNext msgs s b few v f =
    let (e, l) = drop-get_elem? msgs s.next_recv_seq b (v.buffered s.next_recv_seq b f) in
    let n : suc s.next_recv_seq ≡ u32 (s.next_recv_seq + 1) = omega (arith, l, few) in
    record {
      message = e ∙ ap (λ k. b ∷ drop k msgs) n;
      ordered = record {
        next = omega (arith, l, n);
        buffered = λ k c g. v.buffered k c (find-erase s.next_recv_seq k s.recv_buffer c g);
      };
    }

-- How a call comes to deliver: from what is buffered, or from what comes behind.
deliver_inv :
    (s : ReliableUdp) (ds : List Bytes) (more : Recv) {b : Bytes} {s' : ReliableUdp}
    {ds' : List Bytes}
    → deliver s ds more ≡ delivers b s' ds'
    → ((find s.next_recv_seq s.recv_buffer ≡ some b)
        × (record s {
          next_recv_seq = u32 (s.next_recv_seq + 1);
          recv_buffer = erase s.next_recv_seq s.recv_buffer;
        }
            ≡ s')
        × (ds ≡ ds'))
      ⊎ (more ≡ delivers b s' ds')
unfolding deliver
deliver_inv s ds more {b} {s'} {ds'} h = elim (Option-cases (find s.next_recv_seq s.recv_buffer)) [
  | inl n ↦ inr (ground (arith, n, h))
  | inr (c, n) ↦
      let same : delivers c
            (record s {
              next_recv_seq = u32 (s.next_recv_seq + 1);
              recv_buffer = erase s.next_recv_seq s.recv_buffer;
            })
            ds
          ≡ delivers b s' ds' =
        ground (arith, n, h) in
      inl (n ∙ ap some (cc same), cc same, cc same)
]

IsSent-length : (msgs : List Bytes) (d : Bytes) → IsSent msgs d → (length d == 0) ≡ false
IsSent-length msgs d w =
    ground (arith, ap length w.datagram, length-send_packet w.header w.message w.packet)

recv-IsNext :
    (msgs : List Bytes) (s : ReliableUdp) (ds : List Bytes) {b : Bytes} {s' : ReliableUdp}
    {ds' : List Bytes}
    → length msgs < 2 ^ 32
    → IsOrdered msgs s
    → All (IsSent msgs) ds
    → recv s ds ≡ delivers b s' ds'
    → IsNext msgs s b s' × All (IsSent msgs) ds'
unfolding recv
recv-IsNext msgs s [] {b} {s'} {ds'} few v w h = elim (deliver_inv s [] (nothing s []) h) [
  | inl (f, is, rest) ↦ (
    subst (IsNext msgs s b) is (deliver-IsNext msgs s b few v f),
    subst (All (IsSent msgs)) rest w,
  )
  | inr more ↦ absurd (cc more)
]
recv-IsNext msgs s (d ∷ ds) {b} {s'} {ds'} few v (w, ws) h =
    let (s2, got, same, v2) = receive-IsOrdered msgs s d v w in
    elim (deliver_inv s (d ∷ ds) _ h) [
      | inl (f, is, rest) ↦ (
        subst (IsNext msgs s b) is (deliver-IsNext msgs s b few v f),
        subst (All (IsSent msgs)) rest (w, ws),
      )
      | inr more ↦
          let on : recv s2 ds ≡ delivers b s' ds' =
            ground (arith, got, more, IsSent-length msgs d w) in
          let (next, left) = recv-IsNext msgs s2 ds few v2 ws on in
          (
            record {
              message = ap (λ k. drop k msgs) (sym same) ∙ next.message;
              ordered = next.ordered;
            },
            left,
          )
    ]

Recv-cases :
    (x : Recv)
    → (x ≡ undefined)
      ⊎ ((s : ReliableUdp) × (ds : List Bytes) × (x ≡ nothing s ds))
      ⊎ ((b : Bytes) × (s : ReliableUdp) × (ds : List Bytes) × (x ≡ delivers b s ds))
Recv-cases undefined = inl refl
Recv-cases (nothing s ds) = inr (inl (s, ds, refl))
Recv-cases (delivers b s ds) = inr (inr (b, s, ds, refl))

recv_all-zero : (s : ReliableUdp) (ds : List Bytes) → recv_all zero s ds ≡ []
unfolding recv_all
recv_all-zero s ds = refl

recv_all_stops :
    (n : ℕ) (s : ReliableUdp) (ds : List Bytes) {s' : ReliableUdp} {ds' : List Bytes}
    → (recv s ds ≡ undefined) ⊎ (recv s ds ≡ nothing s' ds')
    → recv_all (suc n) s ds ≡ []
unfolding recv_all
recv_all_stops n s ds (inl e) = ground (arith, e)
recv_all_stops n s ds (inr e) = ground (arith, e)

recv_all_delivers :
    (n : ℕ) (s : ReliableUdp) (ds : List Bytes) {b : Bytes} {s' : ReliableUdp} {ds' : List Bytes}
    → recv s ds ≡ delivers b s' ds'
    → recv_all (suc n) s ds ≡ b ∷ recv_all n s' ds'
unfolding recv_all
recv_all_delivers n s ds e = ground (arith, e)

recv_all_from :
    (msgs : List Bytes) (n : ℕ) (s : ReliableUdp) (ds : List Bytes)
    → length msgs < 2 ^ 32
    → IsOrdered msgs s
    → All (IsSent msgs) ds
    → (rest : List Bytes) × (recv_all n s ds ++ rest ≡ drop s.next_recv_seq msgs)
recv_all_from msgs zero s ds few v w =
    (drop s.next_recv_seq msgs, ap (λ t. t ++ drop s.next_recv_seq msgs) (recv_all-zero s ds))
recv_all_from msgs (suc n) s ds few v w = elim (Recv-cases (recv s ds)) [
  | inl e ↦ (
    drop s.next_recv_seq msgs,
    ap (λ t. t ++ drop s.next_recv_seq msgs) (recv_all_stops n s ds {s' = s} {ds' = ds} (inl e)),
  )
  | inr (inl (s', ds', e)) ↦ (
    drop s.next_recv_seq msgs,
    ap (λ t. t ++ drop s.next_recv_seq msgs) (recv_all_stops n s ds (inr e)),
  )
  | inr (inr (b, s', ds', e)) ↦
      let (next, left) = recv-IsNext msgs s ds few v w e in
      let (rest, is) = recv_all_from msgs n s' ds' few next.ordered left in
      (
        rest,
        ap (λ t. t ++ rest) (recv_all_delivers n s ds e) ∙ ap (λ t. b ∷ t) is ∙ sym next.message,
      )
]

new-IsOrdered : (msgs : List Bytes) → IsOrdered msgs new
unfolding new find
new-IsOrdered msgs = record { next = omega arith; buffered = λ k b e. absurd (cc e) }

pub recv_all_ordered :
    (msgs ds : List Bytes) (n : ℕ)
    → length msgs < 2 ^ 32
    → All (IsSent msgs) ds
    → (rest : List Bytes) × (recv_all n new ds ++ rest ≡ msgs)
unfolding new
recv_all_ordered msgs ds n few w = recv_all_from msgs n new ds few (new-IsOrdered msgs) w
