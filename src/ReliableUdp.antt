-- ===== src/ReliableUdp.antt =====
-- include/ultranet/net/reliable_udp.hpp: numbered packets over UDP. The datagrams that come in are an
-- argument, in the order in which the socket gives them; a call of `recv` that finds no more of them
-- times out. A packet's numbers are in the byte order of a little-endian machine, as `memcpy` leaves
-- them.
pub mod Buffer
pub mod Order
pub mod Delivery
pub mod Header
mod Tests
use ultra_net.Prelude.{
  ℕ, zero, suc, ◌+◌, ◌-◌, ◌/◌, ◌%◌, ◌^◌, Bool, true, false, List, [], ◌∷◌, ◌++◌, Option, none, some,
  ltb, ◌==◌, if◌then◌else◌, length, take, drop, Bytes, ◌&&◌, u16, u32, leb,
}
use ultra_net.Prelude.Endian.{le_bytes, take_le}

abbrev pub max_packet_size : ℕ
max_packet_size = 1472

abbrev pub header_size : ℕ
header_size = 11

abbrev pub max_data_size : ℕ
max_data_size = 1461

abbrev pub f_data : ℕ
f_data = 0x08

abbrev pub f_ack : ℕ
f_ack = 0x02

-- `memcpy` between a number and its bytes.
unfoldable pub put32 : ℕ → Bytes
put32 v = le_bytes 4 v

unfoldable pub put16 : ℕ → Bytes
put16 v = le_bytes 2 v

unfoldable pub get32 : Bytes → Option (ℕ × Bytes)
get32 s = take_le 4 s

unfoldable pub get16 : Bytes → Option (ℕ × Bytes)
get16 s = take_le 2 s

pub record PacketHeader : Type 0 where
  pub seq : ℕ
  pub ack : ℕ
  pub flags : ℕ
  pub len : ℕ

unfoldable pub write : PacketHeader → Bytes
write h = put32 h.seq ++ (put32 h.ack ++ (h.flags ∷ put16 h.len))

-- The flags and the length, which are behind the two numbers.
unfoldable pub parse_end : ℕ → ℕ → Bytes → Option PacketHeader
parse_end seq ack [] = none
parse_end seq ack (flags ∷ r) = elim (get16 r) [
  | none ↦ none
  | some (len, _) ↦ some (record { seq = seq; ack = ack; flags = flags; len = len })
]

-- None where the datagram is shorter than a header, and bytes are read that were not received.
unfoldable pub parse : Bytes → Option PacketHeader
parse s = elim (get32 s) [
  | none ↦ none
  | some (seq, r) ↦ elim (get32 r) [ none ↦ none | some (ack, r') ↦ parse_end seq ack r' ]
]

-- `m_recv_buffer`, a map from the packets' numbers.
unfoldable pub find : ℕ → List (ℕ × Bytes) → Option Bytes
find k [] = none
find k ((i, b) ∷ m) = if k == i then some b else find k m

unfoldable pub erase : ℕ → List (ℕ × Bytes) → List (ℕ × Bytes)
erase k [] = []
erase k ((i, b) ∷ m) = let rest = erase k m in if k == i then rest else (i, b) ∷ rest

unfoldable pub insert : ℕ → Bytes → List (ℕ × Bytes) → List (ℕ × Bytes)
insert k b m = (k, b) ∷ erase k m

pub record ReliableUdp : Type 0 where
  pub has_peer : Bool
  pub next_seq : ℕ
  pub next_recv_seq : ℕ
  pub last_recv_seq : ℕ
  pub recv_buffer : List (ℕ × Bytes)

unfoldable pub new : ReliableUdp
new = record {
  has_peer = false;
  next_seq = 0;
  next_recv_seq = 0;
  last_recv_seq = 0;
  recv_buffer = [];
}

unfoldable pub has_data : ℕ → Bool
has_data flags = flags / 8 % 2 == 1

-- The datagram of `send_packet`.
unfoldable pub send_packet : PacketHeader → Bytes → Bytes
send_packet h chunk = write h ++ (if has_data h.flags then take h.len chunk else [])

-- None where `send` answers false.
unfoldable pub send : ReliableUdp → Bytes → Option (ReliableUdp × Bytes)
send s chunk =
    if ltb max_data_size (length chunk)
    then none
    else some (
      record s { next_seq = u32 (s.next_seq + 1) },
      send_packet
          (record {
            seq = s.next_seq;
            ack = s.last_recv_seq;
            flags = f_data;
            len = u16 (length chunk);
          })
          chunk,
    )

pub send_ack_only : ReliableUdp → Bytes
send_ack_only s =
    send_packet
      (record {
        seq = 0;
        ack = if ltb 0 s.next_recv_seq then s.next_recv_seq - 1 else 0;
        flags = f_ack;
        len = 0;
      })
      []

-- None where more payload is read than was received.
unfoldable pub handle_data : ReliableUdp → PacketHeader → Bytes → Option ReliableUdp
handle_data s h payload =
    if ltb h.seq s.next_recv_seq
    then some s
    else if ltb (length payload) h.len
    then none
    else some (record s {
      last_recv_seq = h.seq;
      recv_buffer = insert h.seq (take h.len payload) s.recv_buffer;
    })

-- What `recv` does with what is in its buffer.
unfoldable pub receive_buf : ReliableUdp → Bytes → Option ReliableUdp
receive_buf s buf = elim (parse buf) [
  | none ↦ none
  | some h ↦
      if has_data h.flags && ltb 0 h.len
      then handle_data (record s { has_peer = true }) h (drop header_size buf)
      else some (record s { has_peer = true })
]

-- A datagram that is longer than the buffer is cut.
unfoldable pub receive : ReliableUdp → Bytes → Option ReliableUdp
receive s datagram = receive_buf s (take max_packet_size datagram)

-- The datagrams of the messages that are sent one behind the other, up to one that is too long.
unfoldable pub send_all : ReliableUdp → List Bytes → List Bytes
send_all s [] = []
send_all s (m ∷ ms) = elim (send s m) [ none ↦ [] | some (s', d) ↦ d ∷ send_all s' ms ]

-- What a call of `recv` gives: the data, the state and the datagrams that are left; an empty answer,
-- with those; or a read of bytes that were not received.
pub data Recv : Type 0 where
  undefined : Recv
  nothing : ReliableUdp → List Bytes → Recv
  delivers : Bytes → ReliableUdp → List Bytes → Recv

-- The front of the loop in `recv`: what is ready, or else what comes behind.
unfoldable pub deliver : ReliableUdp → List Bytes → Recv → Recv
deliver s ds more = elim (find s.next_recv_seq s.recv_buffer) [
  | none ↦ more
  | some chunk ↦
      delivers chunk
        (record s {
          next_recv_seq = u32 (s.next_recv_seq + 1);
          recv_buffer = erase s.next_recv_seq s.recv_buffer;
        })
        ds
]

unfoldable pub recv : ReliableUdp → List Bytes → Recv
recv s [] = deliver s [] (nothing s [])
recv s (d ∷ ds) = deliver s (d ∷ ds) (
    if length d == 0
    then nothing s ds
    else elim (receive s d) [ none ↦ undefined | some s' ↦ recv s' ds ])

-- What n calls of `recv` give, up to one that gives nothing.
unfoldable pub recv_all : ℕ → ReliableUdp → List Bytes → List Bytes
recv_all zero s ds = []
recv_all (suc n) s ds = elim (recv s ds) [
  | undefined ↦ []
  | nothing s' ds' ↦ []
  | delivers chunk s' ds' ↦ chunk ∷ recv_all n s' ds'
]
