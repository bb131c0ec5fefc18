-- ===== src/Delivery/Accept.antt =====
-- Delivery.antt: a message that arrives, and the two ends of its handling. A flush of the log takes the
-- time and what `write` and `fsync` give; a step is none where `write` has not returned.
use ultra_net.Prelude.{
  ℕ, Bool, true, false, List, [], ◌∷◌, Option, none, some, ltb, ◌&&◌, if◌then◌else◌, length, Bytes,
  not,
}
use ultra_net.Wire.{Routed, unpack_routed}
use ultra_net.ReceiverLog.Index.{Key}
use ultra_net.ReceiverLog.State.{
  executed, handled_durable, has_data, persisted, enqueued, buffer_data, buffer_handled,
  mark_executed, drop_key, set_enqueued,
}
use ultra_net.ReceiverLog.Flush.{Write, AckItem, FlushResult, flush_ready}
use ultra_net.Delivery.{
  Node, Envelope, DedupItem, completed, lookup, erase, complete, absent, view_completed,
  view_in_progress, peek_dedup, DedupClaim, fresh, claim_completed, busy, overflow, claim_remote,
  post_remote_ack, note_wire_skip, with_rcv,
}
use ultra_net.Delivery.Push.{
  try_enqueue_receiver, enqueue_all, pump_receiver_waiting, find_local_proxy, push_envelope,
  envelope_of,
}

-- What a flush sees of the clock and the file.
pub record Io : Type 0 where
  pub now : ℕ
  pub writes : List Write
  pub synced : Bool

unfoldable pub post_acks : Node → List AckItem → Node
post_acks n [] = n
post_acks n (a ∷ as') = post_acks (post_remote_ack n a.reply_conn_id a.msg_id) as'

unfoldable pub apply_receiver_flush : Node → FlushResult → Node
apply_receiver_flush n r =
    let queued = if n.hold_handler then n else enqueue_all n r.data_keys in
    let all = pump_receiver_waiting (post_acks queued r.acks) in if r.ok then all else n

-- `apply_receiver_flush(m_rcv->flush_ready())`.
unfoldable pub flush : Node → Io → Option Node
flush n io =
    let (s, r) = flush_ready n.rcv io.now io.writes io.synced in
    elim r [ none ↦ none | some f ↦ some (apply_receiver_flush (with_rcv n s) f) ]

-- A round of `receiver_flush_loop`.
unfoldable pub flush_round : Node → Io → Option Node
flush_round n io = let rest = flush n io in if n.logging then rest else some n

unfoldable pub accept_executed : Node → Key → ℕ → Io → Option Node
accept_executed n k conn io =
    let rest = flush (with_rcv n (buffer_handled n.rcv io.now k conn)) io in
    if handled_durable n.rcv k then some (post_remote_ack n conn k.msg_id) else rest

unfoldable pub accept_logged_routed : Node → Bytes → Key → ℕ → Io → Option Node
accept_logged_routed n frame k conn io =
    let again = accept_executed (note_wire_skip n) k conn io in
    let new = flush (with_rcv n (buffer_data n.rcv io.now k frame conn).0) io in
    if not n.logging
    then some n
    else if executed n.rcv k
    then again
    else if has_data n.rcv k
    then (if not n.hold_handler && (persisted n.rcv k && not (enqueued n.rcv k))
        then some (try_enqueue_receiver n k)
        else some n)
    else new

unfoldable pub key_of_routed : Routed → Key
key_of_routed m = record { sender = m.sender_node_id; msg_id = m.msg_id }

-- Without a log.
unfoldable pub accept_routed : Node → Routed → ℕ → Node
accept_routed n m conn = elim (find_local_proxy n m.uri) [
  | none ↦ n
  | some a ↦ elim (peek_dedup n (key_of_routed m)) [
    | view_completed ↦ post_remote_ack (note_wire_skip n) conn m.msg_id
    | view_in_progress ↦ note_wire_skip n
    | absent ↦ (push_envelope n a (envelope_of m conn)).0
  ]
]

-- The branch of `handle_inbound_message` for a routed message, if the node does not hold them.
unfoldable pub handle_routed : Node → Bytes → ℕ → Io → Option Node
handle_routed n frame conn io = elim (unpack_routed frame) [
  | none ↦ some n
  | some m ↦
      if n.logging
      then accept_logged_routed n frame (key_of_routed m) conn io
      else some (accept_routed n m conn)
]

unfoldable pub key_of_envelope : Envelope → Key
key_of_envelope e = record { sender = e.sender_node_id; msg_id = e.correlation_id }

unfoldable pub after_claim : Envelope → Node × DedupClaim → Node × Bool
after_claim e (n, fresh) = (n, true)
after_claim e (n, claim_completed) =
    (post_remote_ack (note_wire_skip n) e.reply_conn_id e.correlation_id, false)
after_claim e (n, busy) = (note_wire_skip n, false)
after_claim e (n, overflow) =
    (if n.logging then with_rcv n (set_enqueued n.rcv (key_of_envelope e) false) else n, false)

-- `dispatch_envelope` of a message with an id, up to its handler, which runs if the flag is true.
unfoldable pub begin_dispatch : Node → Envelope → Node × Bool
begin_dispatch n e = after_claim e (claim_remote n (key_of_envelope e))

pub data DeliverResult : Type 0 where
  ok threw dead_letter : DeliverResult

unfoldable pub has_thrown : DeliverResult → Bool
has_thrown ok = false
has_thrown threw = true
has_thrown dead_letter = false

unfoldable pub finish_table : Node → Key → DeliverResult → List DedupItem
finish_table n k result = if has_thrown result then erase k n.dedup else elim (lookup k n.dedup) [
  | some _ ↦ complete k n.dedup
  | none ↦
      if ltb (length n.dedup) n.dedup_cap
      then record { id = k; state = completed } ∷ n.dedup
      else n.dedup
]

-- What `finish_remote_delivery` does of a message that was executed, on a node with a log.
unfoldable pub finish_logged : Node → Key → ℕ → Io → Option Node
finish_logged n k conn io =
    let m = with_rcv n (mark_executed n.rcv k) in
    let flushed = flush (with_rcv m (buffer_handled m.rcv io.now k conn)) io in
    if not (handled_durable m.rcv k)
    then elim flushed [ none ↦ none | some m' ↦ some (pump_receiver_waiting m') ]
    else some (pump_receiver_waiting (post_remote_ack m conn k.msg_id))

unfoldable pub finish_remote_delivery : Node → Key → ℕ → DeliverResult → Io → Option Node
finish_remote_delivery n k conn result io =
    let m = record n { dedup = finish_table n k result } in
    let logged = finish_logged m k conn io in
    if has_thrown result
    then (if n.logging then some (with_rcv m (drop_key m.rcv k)) else some m)
    else if n.logging
    then logged
    else some (post_remote_ack m conn k.msg_id)
