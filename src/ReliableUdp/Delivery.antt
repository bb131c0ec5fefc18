-- ===== src/ReliableUdp/Delivery.antt =====
-- ReliableUdp.antt: from `send` to `recv`, over a network that loses, repeats and reorders.
use ultra_net.Prelude.{
  ℕ, zero, suc, ◌+◌, ◌≤◌, ◌<◌, ◌^◌, ◌≡◌, refl, sym, ap, ◌∙◌, List, [], ◌∷◌, ◌++◌, some, arith,
  length, Bytes, get_elem?, u32, u16, All,
}
use ultra_net.ReliableUdp.{
  send_packet, ReliableUdp, send, send_all, recv_all, new, f_data, max_data_size,
}
use ultra_net.ReliableUdp.Header.{IsPacket}
use ultra_net.ReliableUdp.Order.{IsSent, recv_all_ordered}

-- A message that a packet can carry, and that is not empty.
abbrev pub IsMessage : Bytes → Type 0
IsMessage m = (0 < length m) × (length m ≤ max_data_size)

-- A datagram among others.
unfoldable pub IsAmong : List Bytes → Bytes → Type 0
IsAmong sent d = (i : ℕ) × (get_elem? sent i ≡ some d)

abbrev packet : ℕ → ℕ → Bytes → Bytes
packet k ack m = send_packet (record { seq = k; ack = ack; flags = f_data; len = u16 (length m) }) m

send_all-nil : (s : ReliableUdp) → send_all s [] ≡ []
unfolding send_all
send_all-nil s = refl

send_all_step :
    (s : ReliableUdp) (m : Bytes) (ms : List Bytes)
    → IsMessage m
    → send_all s (m ∷ ms)
      ≡ packet s.next_seq s.last_recv_seq m
        ∷ send_all (record s { next_seq = u32 (s.next_seq + 1) }) ms
unfolding send_all send
send_all_step s m ms (p, f) = ground (arith, f)

packet_sent :
    (k ack : ℕ) (m : Bytes)
    → k < 2 ^ 32
    → ack < 2 ^ 32
    → IsMessage m
    → IsPacket (record { seq = k; ack = ack; flags = f_data; len = u16 (length m) }) m
packet_sent k ack m seq a (p, f) = record {
  seq = seq;
  ack = a;
  flags = refl;
  len = omega (arith, f);
  some_payload = p;
  fits = f;
}

-- The i-th datagram carries the i-th message, under the number i on from the state's.
send_all-get_elem? :
    (s : ReliableUdp) (ms : List Bytes) (i : ℕ) (d : Bytes)
    → All IsMessage ms
    → s.next_seq + length ms < 2 ^ 32
    → get_elem? (send_all s ms) i ≡ some d
    → (m : Bytes) × (get_elem? ms i ≡ some m)
      × IsMessage m
      × (s.next_seq + i < 2 ^ 32)
      × (d ≡ packet (s.next_seq + i) s.last_recv_seq m)
send_all-get_elem? s [] i d v few h =
    absurd (cc (sym (ap (λ l. get_elem? l i) (send_all-nil s)) ∙ h))
send_all-get_elem? s (m ∷ ms) zero d (v, vs) few h =
    let e = sym (ap (λ l. get_elem? l zero) (send_all_step s m ms v)) ∙ h in
    let here : s.next_seq ≡ s.next_seq + 0 = omega arith in
    (m, refl, v, omega (arith, few), sym (cc e) ∙ ap (λ k. packet k s.last_recv_seq m) here)
send_all-get_elem? s (m ∷ ms) (suc i) d (v, vs) few h =
    let e = sym (ap (λ l. get_elem? l (suc i)) (send_all_step s m ms v)) ∙ h in
    let (c, at, w, l, is) =
      send_all-get_elem? (record s { next_seq = u32 (s.next_seq + 1) }) ms i d vs
        (omega (arith, few)) e in
    let there : u32 (s.next_seq + 1) + i ≡ s.next_seq + suc i = omega (arith, few) in
    (c, at, w, omega (arith, l, there), is ∙ ap (λ k. packet k s.last_recv_seq c) there)

IsAmong-IsSent :
    (ms : List Bytes) (d : Bytes)
    → All IsMessage ms
    → length ms < 2 ^ 32
    → IsAmong (send_all new ms) d
    → IsSent ms d
unfolding IsAmong new
IsAmong-IsSent ms d v few (i, h) =
    let (m, at, w, l, is) = send_all-get_elem? new ms i d v (omega (arith, few)) h in
    let zero_on : 0 + i ≡ i = omega arith in
    record {
      header = record { seq = i; ack = 0; flags = f_data; len = u16 (length m) };
      message = m;
      packet = packet_sent i 0 m (omega (arith, l)) (omega arith) w;
      numbered = at;
      datagram = is ∙ ap (λ k. packet k 0 m) zero_on;
    }

All-IsSent :
    (ms ds : List Bytes)
    → length ms < 2 ^ 32
    → All IsMessage ms
    → All (IsAmong (send_all new ms)) ds
    → All (IsSent ms) ds
All-IsSent ms [] few v w = tt
All-IsSent ms (d ∷ ds) few v (w, ws) = (IsAmong-IsSent ms d v few w, All-IsSent ms ds few v ws)

-- Of fewer than 2 ^ 32 messages, each of 1 to 1461 bytes, that one endpoint sends, let any datagrams
-- reach the other, in any order and any number of times: what its calls of `recv` give are the messages
-- from the first on, in order, each once.
pub recv_all-send_all :
    (ms ds : List Bytes) (n : ℕ)
    → length ms < 2 ^ 32
    → All IsMessage ms
    → All (IsAmong (send_all new ms)) ds
    → (rest : List Bytes) × (recv_all n new ds ++ rest ≡ ms)
recv_all-send_all ms ds n few v w = recv_all_ordered ms ds n few (All-IsSent ms ds few v w)
