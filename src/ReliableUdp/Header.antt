-- ===== src/ReliableUdp/Header.antt =====
-- ReliableUdp.antt: packets are read back.
use ultra_net.Prelude.{
  ℕ, zero, suc, ◌+◌, ◌≤◌, ◌<◌, ◌^◌, ◌≡◌, refl, sym, ap, ◌∙◌, true, false, [], ◌∷◌, ◌++◌, some,
  arith, ltb, length, length-append, take, drop, Bytes, append_assoc, append-nil, take-append_self,
  drop-append_self, if◌then◌else◌, ◌&&◌,
}
use ultra_net.Prelude.Endian.{take_le-le_bytes, length-le_bytes}
use ultra_net.ReliableUdp.{
  PacketHeader, write, parse, parse_end, put32, get32, put16, get16, send_packet, f_data, has_data,
  ReliableUdp, receive, receive_buf, handle_data, insert, max_packet_size, header_size,
  max_data_size,
}

get32-put32 : (v : ℕ) (s : Bytes) → v < 2 ^ 32 → get32 (put32 v ++ s) ≡ some (v, s)
unfolding get32 put32
get32-put32 v s h = take_le-le_bytes 4 v s h

get16-put16 : (v : ℕ) (s : Bytes) → v < 2 ^ 16 → get16 (put16 v ++ s) ≡ some (v, s)
unfolding get16 put16
get16-put16 v s h = take_le-le_bytes 2 v s h

length-put32 : (v : ℕ) → length (put32 v) ≡ 4
unfolding put32
length-put32 v = length-le_bytes 4 v

length-put16 : (v : ℕ) → length (put16 v) ≡ 2
unfolding put16
length-put16 v = length-le_bytes 2 v

write_as :
    (h : PacketHeader) (t : Bytes)
    → write h ++ t ≡ put32 h.seq ++ (put32 h.ack ++ (h.flags ∷ (put16 h.len ++ t)))
unfolding write
write_as h t =
    append_assoc (put32 h.seq) _ t
    ∙ ap (λ u. put32 h.seq ++ u) (append_assoc (put32 h.ack) (h.flags ∷ put16 h.len) t)

-- A header whose numbers fit their fields is parsed back from its bytes, whatever stands behind them.
pub parse-write :
    (h : PacketHeader) (t : Bytes)
    → h.seq < 2 ^ 32
    → h.ack < 2 ^ 32
    → h.len < 2 ^ 16
    → parse (write h ++ t) ≡ some h
unfolding parse parse_end
parse-write h t seq ack len =
    ap parse (write_as h t)
    ∙ ground (
      arith,
      get32-put32 h.seq (put32 h.ack ++ (h.flags ∷ (put16 h.len ++ t))) seq,
      get32-put32 h.ack (h.flags ∷ (put16 h.len ++ t)) ack,
      get16-put16 h.len t len,
    )

length-write : (h : PacketHeader) → length (write h) ≡ 11
unfolding write
length-write h = omega (
  arith,
  length-append (put32 h.seq) (put32 h.ack ++ (h.flags ∷ put16 h.len)),
  length-append (put32 h.ack) (h.flags ∷ put16 h.len),
  length-put32 h.seq,
  length-put32 h.ack,
  length-put16 h.len,
)

-- A data packet that carries a payload.
pub record IsPacket (h : PacketHeader) (m : Bytes) : Type 0 where
  pub seq : h.seq < 2 ^ 32
  pub ack : h.ack < 2 ^ 32
  pub flags : h.flags ≡ f_data
  pub len : h.len ≡ length m
  pub some_payload : 0 < length m
  pub fits : length m ≤ max_data_size

send_packet_as : (h : PacketHeader) (m : Bytes) → IsPacket h m → send_packet h m ≡ write h ++ m
unfolding send_packet has_data
send_packet_as h m v =
    let all : take h.len m ≡ m =
      ap (λ n. take n m) v.len
      ∙ ap (take (length m)) (sym (append-nil m))
      ∙ take-append_self m [] in
    ground (arith, v.flags, all)

take_all : (n : ℕ) (s : Bytes) → length s ≤ n → take n s ≡ s
take_all zero [] h = refl
take_all (suc n) [] h = refl
take_all zero (b ∷ s) h = absurd (omega (arith, h))
take_all (suc n) (b ∷ s) h = ap (λ t. b ∷ t) (take_all n s (omega (arith, h)))

receive_buf_parsed :
    (s : ReliableUdp) (buf : Bytes) (h : PacketHeader)
    → parse buf ≡ some h
    → (has_data h.flags && ltb 0 h.len) ≡ true
    → receive_buf s buf ≡ handle_data (record s { has_peer = true }) h (drop header_size buf)
unfolding receive_buf
receive_buf_parsed s buf h e t = ground (arith, e, t)

handle_data_whole :
    (s : ReliableUdp) (h : PacketHeader) (m : Bytes)
    → h.len ≡ length m
    → handle_data s h m ≡ (
        if ltb h.seq s.next_recv_seq
        then some s
        else some (record s { last_recv_seq = h.seq; recv_buffer = insert h.seq m s.recv_buffer }))
unfolding handle_data
handle_data_whole s h m len =
    let enough : ltb (length m) h.len ≡ false = ground (arith, len) in
    let all : take h.len m ≡ m = ap (λ n. take n m) len ∙ take_all (length m) m (omega arith) in
    rw (enough, all) refl

IsPacket-has_data :
    (h : PacketHeader) (m : Bytes) → IsPacket h m → (has_data h.flags && ltb 0 h.len) ≡ true
unfolding has_data
IsPacket-has_data h m v = ground (arith, v.flags, v.len, v.some_payload)

pub length-send_packet :
    (h : PacketHeader) (m : Bytes) → IsPacket h m → length (send_packet h m) ≡ 11 + length m
length-send_packet h m v =
    ap length (send_packet_as h m v) ∙ omega (arith, length-append (write h) m, length-write h)

-- What comes in of a packet that was sent.
pub receive-send_packet :
    (s : ReliableUdp) (h : PacketHeader) (m : Bytes)
    → IsPacket h m
    → receive s (send_packet h m) ≡ (
        if ltb h.seq s.next_recv_seq
        then some (record s { has_peer = true })
        else some (record s {
          has_peer = true;
          last_recv_seq = h.seq;
          recv_buffer = insert h.seq m s.recv_buffer;
        }))
unfolding receive
receive-send_packet s h m v =
    let size : length (write h ++ m) ≤ max_packet_size =
      omega (arith, v.fits, length-append (write h) m, length-write h) in
    let whole : take max_packet_size (send_packet h m) ≡ write h ++ m =
      ap (take max_packet_size) (send_packet_as h m v)
      ∙ take_all max_packet_size (write h ++ m) size in
    let behind : drop header_size (write h ++ m) ≡ m =
      ap (λ n. drop n (write h ++ m)) (sym (length-write h)) ∙ drop-append_self (write h) m in
    let parsed : parse (write h ++ m) ≡ some h =
      parse-write h m v.seq v.ack (omega (arith, v.len, v.fits)) in
    ap (receive_buf s) whole
    ∙ receive_buf_parsed s (write h ++ m) h parsed (IsPacket-has_data h m v)
    ∙ ap (handle_data (record s { has_peer = true }) h) behind
    ∙ handle_data_whole (record s { has_peer = true }) h m v.len
