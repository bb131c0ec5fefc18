-- ===== src/Delivery/Push.antt =====
-- Delivery.antt: from the frame of a message to the mailbox of an actor.
use ultra_net.Prelude.{
  ℕ, Bool, true, false, List, [], ◌∷◌, ◌++◌, Option, none, some, ◌&&◌, ◌||◌, if◌then◌else◌, Bytes,
  not,
}
use ultra_net.Uri.{ActorUri, to_string}
use ultra_net.Wire.{Routed, unpack_routed}
use ultra_net.ReceiverLog.Index.{Key}
use ultra_net.ReceiverLog.State.{
  ReplayItem, executed, persisted, enqueued, copy_frame, reply_conn, set_enqueued, waiting_keys,
  take_for_actor, is_empty, same_string,
}
use ultra_net.Delivery.{
  Node, LocalActor, Envelope, DedupRoom, push, already, full, dedup_room_for, with_rcv,
}

unfoldable pub find_text : Bytes → List LocalActor → Option LocalActor
find_text s [] = none
find_text s (a ∷ m) =
    let rest = find_text s m in if same_string (to_string a.uri) s then some a else rest

unfoldable pub find_name : ActorUri → List LocalActor → Option LocalActor
find_name u [] = none
find_name u (a ∷ m) =
    let rest = find_name u m in
    if same_string a.uri.type u.type && same_string a.uri.name u.name then some a else rest

unfoldable pub find_local_proxy : Node → ActorUri → Option LocalActor
find_local_proxy n u = elim (find_text (to_string u) n.actors) [
  | some a ↦ some a
  | none ↦ find_name u n.actors
]

-- `push_envelope`, which waits for room in the mailbox.
unfoldable pub push_envelope : Node → LocalActor → Envelope → Node × Bool
push_envelope n a env =
    if a.shutting_down
    then (n, false)
    else (record n { mail = n.mail ++ (record { actor = a.uri; envelope = env } ∷ []) }, true)

unfoldable pub envelope_of : Routed → ℕ → Envelope
envelope_of m conn = record {
  msg_type = m.msg_hash;
  correlation_id = m.msg_id;
  reply_conn_id = conn;
  sender_node_id = m.sender_node_id;
  flags = m.flags;
  body = m.payload;
}

unfoldable pub push_routed : Node → Routed → ℕ → Node × Bool
push_routed n m conn = elim (find_local_proxy n m.uri) [
  | none ↦ (n, false)
  | some a ↦ push_envelope n a (envelope_of m conn)
]

unfoldable pub push_routed_frame : Node → Bytes → ℕ → Node × Bool
push_routed_frame n frame conn = elim (unpack_routed frame) [
  | none ↦ (n, false)
  | some m ↦ push_routed n m conn
]

-- `set_enqueued(false)` if the push failed.
unfoldable pub settle : Key → Node × Bool → Node
settle k (n, ok) = if ok then n else with_rcv n (set_enqueued n.rcv k false)

-- `set_enqueued(true)` and the push.
unfoldable pub push_marked : Node → Key → Bytes → Node
push_marked n k frame =
    settle k (push_routed_frame (with_rcv n (set_enqueued n.rcv k true)) frame (reply_conn n.rcv k))

unfoldable pub enqueue_in : DedupRoom → Node → Key → Node
enqueue_in full n k = n
enqueue_in already n k = with_rcv n (set_enqueued n.rcv k true)
enqueue_in push n k =
    if is_empty (copy_frame n.rcv k) then n else push_marked n k (copy_frame n.rcv k)

unfoldable pub try_enqueue_receiver : Node → Key → Node
try_enqueue_receiver n k =
    if not n.logging || n.hold_handler
    then n
    else if executed n.rcv k || not (persisted n.rcv k)
    then n
    else if enqueued n.rcv k
    then n
    else enqueue_in (dedup_room_for n k) n k

unfoldable pub enqueue_all : Node → List Key → Node
enqueue_all n [] = n
enqueue_all n (k ∷ ks) = enqueue_all (try_enqueue_receiver n k) ks

unfoldable pub pump_receiver_waiting : Node → Node
pump_receiver_waiting n =
    if not n.logging || n.hold_handler then n else enqueue_all n (waiting_keys n.rcv.index)

unfoldable pub push_item : Node → ReplayItem → Node
push_item n i = settle i.id (push_routed_frame n i.frame 0)

unfoldable pub push_items : Node → List ReplayItem → Node
push_items n [] = n
push_items n (i ∷ is) = push_items (push_item n i) is

unfoldable pub replay_receiver_for : Node → ActorUri → Node
replay_receiver_for n u =
    let (s, items) = take_for_actor n.rcv u.type u.name in
    if not n.logging || n.hold_handler then n else push_items (with_rcv n s) items
