-- ===== src/Delivery.antt =====
-- include/ultranet/actor/system/actor_system.h: the messages that a node takes from others, from their
-- frames to the mailboxes of its actors, and the table that keeps a message from being handled twice.
-- A call of the code is one step here, but for the handler of a message, which runs between
-- `claim_remote` and `finish_remote_delivery`; steps of other messages may come in between. The node
-- has a transport and a pool, so that an acknowledgement is posted where the connection is not 0.
pub mod Push
pub mod Accept
pub mod Held
pub mod Flushes
pub mod Distinct
pub mod Replays
pub mod Once
pub mod Table
pub mod Enqueue
pub mod Claim
pub mod Evict
pub mod Finish
pub mod Arrive
pub mod Run
pub mod Counts
pub mod Sound
mod Tests
use ultra_net.Prelude.{
  ℕ, Bool, true, false, List, [], ◌∷◌, ◌++◌, Option, none, some, ltb, leb, ◌==◌, ◌&&◌, ◌||◌,
  if◌then◌else◌, inc64, length, Bytes,
}
use ultra_net.Uri.{ActorUri}
use ultra_net.ReceiverLog.Index.{Key, same}
use ultra_net.ReceiverLog.State.{State, executed, handled_durable}
use ultra_net.ReceiverLog.Flush.{AckItem}

pub data DedupState : Type 0 where
  in_progress completed : DedupState

-- An entry of `m_dedup` behind its key.
pub record DedupItem : Type 0 where
  pub id : Key
  pub state : DedupState

-- `message_envelope`; its inline and its heap storage hold the same bytes.
pub record Envelope : Type 0 where
  pub msg_type : ℕ
  pub correlation_id : ℕ
  pub reply_conn_id : ℕ
  pub sender_node_id : ℕ
  pub flags : ℕ
  pub body : Bytes

pub record LocalActor : Type 0 where
  pub uri : ActorUri
  pub shutting_down : Bool

-- An envelope in the mailbox of the actor.
pub record Mail : Type 0 where
  pub actor : ActorUri
  pub envelope : Envelope

-- `logging` tells whether there is an `m_rcv`, which is `rcv` then; `acks` are the acknowledgements
-- posted, the last one at the end; `mail` holds all mailboxes, `actors` the registry in the order of its
-- iteration.
pub record Node : Type 0 where
  pub logging : Bool
  pub rcv : State
  pub hold_handler : Bool
  pub dedup_cap : ℕ
  pub dedup : List DedupItem
  pub dedup_overflow : ℕ
  pub dedup_evict : ℕ
  pub wire_skips : ℕ
  pub actors : List LocalActor
  pub mail : List Mail
  pub acks : List AckItem

unfoldable pub lookup : Key → List DedupItem → Option DedupState
lookup k [] = none
lookup k (i ∷ m) = let rest = lookup k m in if same k i.id then some i.state else rest

unfoldable pub erase : Key → List DedupItem → List DedupItem
erase k [] = []
erase k (i ∷ m) = let rest = erase k m in if same k i.id then rest else i ∷ rest

-- `it->second = completed`.
unfoldable pub complete : Key → List DedupItem → List DedupItem
complete k [] = []
complete k (i ∷ m) =
    let rest = complete k m in
    if same k i.id then record { id = i.id; state = completed } ∷ rest else i ∷ rest

unfoldable pub is_completed : DedupState → Bool
is_completed in_progress = false
is_completed completed = true

unfoldable pub any_completed : List DedupItem → Bool
any_completed [] = false
any_completed (i ∷ m) = is_completed i.state || any_completed m

pub data DedupRoom : Type 0 where
  push already full : DedupRoom

unfoldable pub dedup_room_for : Node → Key → DedupRoom
dedup_room_for n k = elim (lookup k n.dedup) [
  | some _ ↦ already
  | none ↦ if ltb (length n.dedup) n.dedup_cap || any_completed n.dedup then push else full
]

pub data DedupView : Type 0 where
  absent view_in_progress view_completed : DedupView

unfoldable pub peek_dedup : Node → Key → DedupView
peek_dedup n k = elim (lookup k n.dedup) [
  | none ↦ absent
  | some completed ↦ view_completed
  | some in_progress ↦ view_in_progress
]

-- The loop over the table for the oldest completed entry; `victim` is the one found so far.
unfoldable pub find_victim : Option Key → List DedupItem → Option Key
find_victim victim [] = victim
find_victim none (i ∷ m) = find_victim (if is_completed i.state then some i.id else none) m
find_victim (some v) (i ∷ m) =
    let older =
      ltb i.id.msg_id v.msg_id || ((i.id.msg_id == v.msg_id) && ltb i.id.sender v.sender) in
    find_victim (if is_completed i.state && older then some i.id else some v) m

pub data DedupClaim : Type 0 where
  fresh claim_completed busy overflow : DedupClaim

unfoldable pub emplace_running : Key → Node → Node
emplace_running k n = record n { dedup = record { id = k; state = in_progress } ∷ n.dedup }

-- What a full table leaves: the victim makes room, if there is one.
unfoldable pub claim_evicting : Node → Key → Option Key → Node × DedupClaim
claim_evicting n k none = (record n { dedup_overflow = inc64 n.dedup_overflow }, overflow)
claim_evicting n k (some v) = (
  emplace_running k (record n { dedup = erase v n.dedup; dedup_evict = inc64 n.dedup_evict }),
  fresh,
)

-- Behind the look into the log.
unfoldable pub claim_place : Node → Key → Node × DedupClaim
claim_place n k =
    if leb n.dedup_cap (length n.dedup)
    then claim_evicting n k (find_victim none n.dedup)
    else (emplace_running k n, fresh)

unfoldable pub claim_remote : Node → Key → Node × DedupClaim
claim_remote n k =
    let log_executed = n.logging && executed n.rcv k in
    let log_handled = n.logging && handled_durable n.rcv k in
    elim (lookup k n.dedup) [
      | some completed ↦ (n, claim_completed)
      | some in_progress ↦ (n, busy)
      | none ↦
          if log_executed && log_handled
          then (n, claim_completed)
          else if log_executed
          then (n, busy)
          else claim_place n k
    ]

unfoldable pub post_remote_ack : Node → ℕ → ℕ → Node
post_remote_ack n conn id =
    if conn == 0
    then n
    else record n { acks = n.acks ++ (record { reply_conn_id = conn; msg_id = id } ∷ []) }

unfoldable pub note_wire_skip : Node → Node
note_wire_skip n = record n { wire_skips = inc64 n.wire_skips }

unfoldable pub with_rcv : Node → State → Node
with_rcv n s = record n { rcv = s }
