-- ===== src/ReceiverLog/Flush.antt =====
-- `flush_ready` of include/ultranet/actor/dist/receiver_log.h and what it calls. What `write` gives is
-- an argument, and so is whether `fsync` succeeds.
use ultra_net.Prelude.{
  ℕ, zero, suc, ◌+◌, ◌-◌, Bool, true, false, List, [], ◌∷◌, ◌++◌, Option, none, some, ◌==◌,
  if◌then◌else◌, length, take, drop, Bytes, ◌&&◌, ◌||◌, not, leb,
}
use ultra_net.Log.{Frame, frame_bytes, write_le_u64}
use ultra_net.ReceiverLog.Index.{Key, Entry, Item, find, modify, erase}
use ultra_net.ReceiverLog.State.{PendingRec, State, with_index}

abbrev pub magic : Bytes
magic = 0x52 ∷ 0x43 ∷ 0x56 ∷ 0x31 ∷ []

-- What a call of `write` gives: a count, EINTR or another error.
pub data Write : Type 0 where
  wrote : ℕ → Write
  interrupted failed : Write

unfoldable pub frame_of : PendingRec → Frame
frame_of r = record {
  type = r.type;
  ids = write_le_u64 r.id.sender ++ write_le_u64 r.id.msg_id;
  body = r.body;
}

unfoldable pub batch_bytes : List PendingRec → Bytes
batch_bytes [] = []
batch_bytes (r ∷ rs) = frame_bytes magic (frame_of r) ++ batch_bytes rs

-- The file, and whether the call succeeded: none where it is still running as the list ends.
unfoldable pub write_full : List Write → Bytes → Bytes → Bytes × Option Bool
write_full ws file [] = (file, some true)
write_full [] file (b ∷ r) = (file, none)
write_full (interrupted ∷ ws) file (b ∷ r) = write_full ws file (b ∷ r)
write_full (failed ∷ ws) file (b ∷ r) = (file, some false)
write_full (wrote zero ∷ ws) file (b ∷ r) = (file, some false)
write_full (wrote (suc n) ∷ ws) file (b ∷ r) =
    write_full ws (file ++ take (suc n) (b ∷ r)) (drop (suc n) (b ∷ r))

unfoldable pub erase_unpersisted : Key → List Item → List Item
erase_unpersisted k m = elim (find k m) [ none ↦ m | some e ↦ if e.persisted then m else erase k m ]

unfoldable pub rollback : List PendingRec → List Item → List Item
rollback [] m = m
rollback (r ∷ rs) m = rollback rs (if r.type == 1 then erase_unpersisted r.id m else m)

-- `ack_item`.
pub record AckItem : Type 0 where
  pub reply_conn_id : ℕ
  pub msg_id : ℕ

pub record FlushResult : Type 0 where
  pub ok : Bool
  pub data_keys : List Key
  pub acks : List AckItem

unfoldable pub put_persisted : Entry → Entry
put_persisted e = record {
  frame = e.frame;
  reply_conn_id = e.reply_conn_id;
  persisted = true;
  executed = e.executed;
  enqueued = e.enqueued;
  handled = e.handled;
}

unfoldable pub put_handled : Entry → Entry
put_handled e = record {
  frame = e.frame;
  reply_conn_id = e.reply_conn_id;
  persisted = e.persisted;
  executed = e.executed;
  enqueued = e.enqueued;
  handled = true;
}

-- The loop of `commit_batch` over the records of the batch.
unfoldable pub commit_rec : PendingRec → List Item → List Item
commit_rec r m =
    if r.type == 1
    then modify r.id put_persisted m
    else if r.type == 2
    then modify r.id put_handled m
    else m

unfoldable pub commit_index : List PendingRec → List Item → List Item
commit_index [] m = m
commit_index (r ∷ rs) m = commit_index rs (commit_rec r m)

unfoldable pub to_run : Key → List Item → Bool
to_run k m = elim (find k m) [ none ↦ false | some e ↦ not e.executed && not e.enqueued ]

unfoldable pub commit_keys : List PendingRec → List Item → List Key
commit_keys [] m = []
commit_keys (r ∷ rs) m =
    let rest = commit_keys rs (commit_rec r m) in
    if (r.type == 1) && to_run r.id m then r.id ∷ rest else rest

unfoldable pub commit_acks : List PendingRec → List AckItem
commit_acks [] = []
commit_acks (r ∷ rs) =
    let rest = commit_acks rs in
    if r.type == 2
    then record { reply_conn_id = r.reply_conn_id; msg_id = r.id.msg_id } ∷ rest
    else rest

unfoldable pub count_type : ℕ → List PendingRec → ℕ
count_type t [] = 0
count_type t (r ∷ rs) = let rest = count_type t rs in if r.type == t then suc rest else rest

unfoldable pub committed : List PendingRec → State → Bytes → State
committed batch s file = record {
  fd_open = s.fd_open;
  file = file;
  torn = s.torn;
  index = commit_index batch s.index;
  pending = s.pending;
  group_open = s.group_open;
  group_start = s.group_start;
  fsynced_data = s.fsynced_data + count_type 1 batch;
  fsynced_handled = s.fsynced_handled + count_type 2 batch;
}

unfoldable pub with_file : State → Bytes → State
with_file s file = record {
  fd_open = s.fd_open;
  file = file;
  torn = s.torn;
  index = s.index;
  pending = s.pending;
  group_open = s.group_open;
  group_start = s.group_start;
  fsynced_data = s.fsynced_data;
  fsynced_handled = s.fsynced_handled;
}

unfoldable pub nothing : FlushResult
nothing = record { ok = true; data_keys = []; acks = [] }

unfoldable pub not_ok : FlushResult
not_ok = record { ok = false; data_keys = []; acks = [] }

-- `commit_batch` behind `write_full`; none where that is still running.
unfoldable pub commit_written :
    List PendingRec → Bool → State → Bytes × Option Bool → State × Option FlushResult
commit_written batch synced s (file, none) = (with_file s file, none)
commit_written batch synced s (file, some false) =
    (with_index (with_file s file) (rollback batch s.index), some not_ok)
commit_written batch false s (file, some true) =
    (with_index (with_file s file) (rollback batch s.index), some not_ok)
commit_written batch true s (file, some true) = (
  committed batch s file,
  some (record { ok = true; data_keys = commit_keys batch s.index; acks = commit_acks batch }),
)

unfoldable pub commit_batch :
    List PendingRec → List Write → Bool → State → State × Option FlushResult
commit_batch batch ws synced s =
    if s.fd_open
    then commit_written batch synced s (write_full ws s.file (batch_bytes batch))
    else (with_index s (rollback batch s.index), some not_ok)

-- `batch.swap(m_pending)`.
unfoldable pub swap_pending : State → State
swap_pending s = record {
  fd_open = s.fd_open;
  file = s.file;
  torn = s.torn;
  index = s.index;
  pending = [];
  group_open = false;
  group_start = s.group_start;
  fsynced_data = s.fsynced_data;
  fsynced_handled = s.fsynced_handled;
}

unfoldable pub is_ready : State → ℕ → Bool
is_ready s now = leb 32 (length s.pending) || (s.group_open && leb 2000000 (now - s.group_start))

unfoldable pub flush_ready : State → ℕ → List Write → Bool → State × Option FlushResult
flush_ready s now ws synced =
    if length s.pending == 0
    then (s, some nothing)
    else if is_ready s now
    then commit_batch s.pending ws synced (swap_pending s)
    else (s, some nothing)
