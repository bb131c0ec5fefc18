-- ===== src/Sender.antt =====
-- include/ultranet/actor/dist/remote_proxy.h, and what include/ultranet/actor/system/actor_system.h
-- keeps of the messages that were sent and not acknowledged. Times are arguments, in nanoseconds, and
-- so is what `write` and `fsync` give to the log and whether a connection takes a frame, which it does
-- while it is valid. A step is none where `write` has not returned. The node has a pool and is not
-- shutting down, and the order of the hash table `m_unacked` is that of a list.
pub mod Events
pub mod Kept
pub mod Acked
pub mod Resend
pub mod Restart
pub mod Written
pub mod Logged
pub mod Tracked
mod Tests
use ultra_net.Prelude.{
  ℕ, ◌+◌, ◌-◌, ◌%◌, ◌^◌, Bool, true, false, List, [], ◌∷◌, ◌++◌, Option, none, some, leb, ◌==◌,
  ◌&&◌, not, if◌then◌else◌, inc64, length, Bytes,
}
use ultra_net.Uri.{ActorUri}
use ultra_net.Wire.{Routed, pack_routed}
use ultra_net.RemoteLog.{RemoteLog, Answer, waits, answers, append_data, append_ack}

-- An entry of `m_unacked`.
pub record UnackedItem : Type 0 where
  pub msg_id : ℕ
  pub frame : Bytes
  pub sent_at : ℕ
  pub node : ℕ
  pub needs_resend : Bool

-- `posted` are the frames that connections took, each with the node that it goes to, the last one at the
-- end.
pub record Sender : Type 0 where
  pub log : Option RemoteLog
  pub unacked : List UnackedItem
  pub next_msg_id : ℕ
  pub resent : ℕ
  pub ack_timeout_resend : ℕ
  pub posted : List (ℕ × Bytes)

-- What the file gives to one record of the log.
pub record Disk : Type 0 where
  pub writes : List (Option ℕ)
  pub synced : Bool

unfoldable pub alloc_msg_id : Sender → ℕ × Sender
alloc_msg_id s = (s.next_msg_id, record s { next_msg_id = inc64 s.next_msg_id })

unfoldable pub find : ℕ → List UnackedItem → Option UnackedItem
find id [] = none
find id (i ∷ m) = let rest = find id m in if id == i.msg_id then some i else rest

unfoldable pub erase : ℕ → List UnackedItem → List UnackedItem
erase id [] = []
erase id (i ∷ m) = let rest = erase id m in if id == i.msg_id then rest else i ∷ rest

-- `m_unacked[msg_id] = item`.
unfoldable pub put : UnackedItem → List UnackedItem → List UnackedItem
put i m = i ∷ erase i.msg_id m

unfoldable pub track_unacked : Sender → ℕ → ℕ → Bytes → ℕ → Sender
track_unacked s node id frame now =
    let item : UnackedItem = record {
      msg_id = id;
      frame = frame;
      sent_at = now;
      node = node;
      needs_resend = false;
    } in
    record s { unacked = put item s.unacked }

-- The answer of a call of the log, and the node with the log that it leaves.
unfoldable pub logged : Sender → RemoteLog × Answer → Option (Sender × Bool)
logged s (l, waits) = none
logged s (l, answers b) = some (record s { log = some l }, b)

-- `!m_log || m_log->append_data(id, frame)`.
unfoldable pub log_data : Sender → ℕ → Bytes → Disk → Option (Sender × Bool)
log_data s id frame disk = elim s.log [
  | none ↦ some (s, true)
  | some l ↦ logged s (append_data l id frame disk.writes disk.synced)
]

-- The hook `m_track` of `bind_proxy_hooks`.
unfoldable pub track : Sender → ℕ → ℕ → Bytes → ℕ → Disk → Option (Sender × Bool)
track s node id frame now disk = elim (log_data s id frame disk) [
  | none ↦ none
  | some (s', false) ↦ some (s', false)
  | some (s', true) ↦ some (track_unacked s' node id frame now, true)
]

unfoldable pub log_ack : Sender → ℕ → Disk → Option (Sender × Bool)
log_ack s id disk = elim s.log [
  | none ↦ some (s, true)
  | some l ↦ logged s (append_ack l id disk.writes disk.synced)
]

unfoldable pub note_ack : Sender → ℕ → Disk → Option Sender
note_ack s id disk = elim (log_ack s id disk) [
  | none ↦ none
  | some (s', false) ↦ some s'
  | some (s', true) ↦ some (record s' { unacked = erase id s'.unacked })
]

unfoldable pub mark_failed : ℕ → List UnackedItem → List UnackedItem
mark_failed id [] = []
mark_failed id (i ∷ m) =
    let rest = mark_failed id m in
    if id == i.msg_id then record i { needs_resend = true } ∷ m else i ∷ rest

unfoldable pub note_send_failed : Sender → ℕ → Sender
note_send_failed s id = record s { unacked = mark_failed id s.unacked }

-- The loop of `on_link_dead` over the table.
unfoldable pub mark_dead : ℕ → List UnackedItem → List UnackedItem
mark_dead node [] = []
mark_dead node (i ∷ m) =
    let rest = mark_dead node m in
    if i.node == node then record i { needs_resend = true } ∷ rest else i ∷ rest

unfoldable pub on_link_dead : Sender → ℕ → Sender
on_link_dead s node = record s { unacked = mark_dead node s.unacked }

-- `post_frame` of the connection to the node, which takes the frame if it is valid.
unfoldable pub post_frame : Sender → ℕ → Bytes → Bool → Sender
post_frame s node frame valid =
    if valid then record s { posted = s.posted ++ ((node, frame) ∷ []) } else s

-- `pending_frame`s of a node.
unfoldable pub pending : ℕ → List UnackedItem → List UnackedItem
pending node [] = []
pending node (i ∷ m) =
    let rest = pending node m in if (i.node == node) && i.needs_resend then i ∷ rest else rest

unfoldable pub mark_sent : ℕ → ℕ → List UnackedItem → List UnackedItem
mark_sent id now [] = []
mark_sent id now (i ∷ m) =
    let rest = mark_sent id now m in
    if id == i.msg_id then record i { needs_resend = false; sent_at = now } ∷ m else i ∷ rest

-- The second loop of `resend_unacked`, over a connection that stays as it is.
unfoldable pub resend : Sender → ℕ → List UnackedItem → ℕ → Bool → Sender
resend s node [] now valid = s
resend s node (i ∷ is) now valid =
    let sent = record (post_frame s node i.frame valid) {
      unacked = mark_sent i.msg_id now s.unacked;
      resent = inc64 s.resent;
    } in
    resend (if valid then sent else s) node is now valid

unfoldable pub resend_unacked : Sender → ℕ → ℕ → Bool → Sender
resend_unacked s node now valid = resend s node (pending node s.unacked) now valid

-- `now - item.sent_at >= limit`, in signed numbers that do not overflow.
unfoldable pub is_due : ℕ → ℕ → UnackedItem → Bool
is_due limit now i = not i.needs_resend && leb (limit + i.sent_at) now

-- The loop of `ack_timeout_loop` over the table: what is due, and the table with its new times.
unfoldable pub due : ℕ → ℕ → List UnackedItem → List UnackedItem
due limit now [] = []
due limit now (i ∷ m) = let rest = due limit now m in if is_due limit now i then i ∷ rest else rest

unfoldable pub restamp : ℕ → ℕ → List UnackedItem → List UnackedItem
restamp limit now [] = []
restamp limit now (i ∷ m) =
    let rest = restamp limit now m in
    if is_due limit now i then record i { sent_at = now } ∷ rest else i ∷ rest

-- `valid` tells of each node whether there is a valid connection to it.
unfoldable pub post_due : Sender → List UnackedItem → (ℕ → Bool) → Sender
post_due s [] valid = s
post_due s (i ∷ is) valid = post_due (post_frame s i.node i.frame (valid i.node)) is valid

-- A round of `ack_timeout_loop`; the limit is `remote_ack_timeout_ms`.
unfoldable pub ack_timeout : Sender → ℕ → ℕ → (ℕ → Bool) → Sender
ack_timeout s limit now valid =
    let late = due limit now s.unacked in
    post_due
      (record s {
        unacked = restamp limit now s.unacked;
        ack_timeout_resend = (s.ack_timeout_resend + length late) % 2 ^ 64;
      })
      late valid
