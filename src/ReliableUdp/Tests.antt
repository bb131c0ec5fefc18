-- ===== src/ReliableUdp/Tests.antt =====
-- Runs of ReliableUdp.antt on small inputs.
use ultra_net.Prelude.{◌≡◌, refl, List, [], ◌∷◌, ◌++◌, arith, codes, Bytes}
use ultra_net.ReliableUdp.{
  write, parse, put32, put16, send, send_all, send_packet, has_data, recv_all, new, recv, deliver,
  receive, receive_buf, handle_data, find, erase, insert, get32, get16, parse_end,
}
use ultra_net.ReliableUdp.Delivery.{IsAmong, recv_all-send_all}

abbrev msgs : List Bytes
msgs = codes "ab" ∷ codes "c" ∷ codes "d" ∷ []

abbrev first : Bytes
first = 0 ∷ 0 ∷ 0 ∷ 0 ∷ 0 ∷ 0 ∷ 0 ∷ 0 ∷ 8 ∷ 2 ∷ 0 ∷ codes "ab"

abbrev second : Bytes
second = 1 ∷ 0 ∷ 0 ∷ 0 ∷ 0 ∷ 0 ∷ 0 ∷ 0 ∷ 8 ∷ 1 ∷ 0 ∷ codes "c"

first-IsAmong : IsAmong (send_all new msgs) first
unfolding IsAmong send_all send send_packet write put32 put16 has_data new
first-IsAmong = (0, refl)

second-IsAmong : IsAmong (send_all new msgs) second
unfolding IsAmong send_all send send_packet write put32 put16 has_data new
second-IsAmong = (1, refl)

-- The third packet is lost, and the second comes first and again.
two_delivered : recv_all 9 new (second ∷ first ∷ second ∷ []) ≡ codes "ab" ∷ codes "c" ∷ []
unfolding recv_all recv deliver receive receive_buf handle_data find erase insert parse parse_end
    get32 get16 has_data new
two_delivered = refl

recv_all-send_all_example :
    (rest : List Bytes) × (recv_all 9 new (second ∷ first ∷ second ∷ []) ++ rest ≡ msgs)
recv_all-send_all_example =
    recv_all-send_all msgs (second ∷ first ∷ second ∷ []) 9 (omega arith)
      ((omega arith, omega arith), ((omega arith, omega arith), ((omega arith, omega arith), tt)))
      (second-IsAmong, (first-IsAmong, (second-IsAmong, tt)))
