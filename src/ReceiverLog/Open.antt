-- ===== src/ReceiverLog/Open.antt =====
-- `scan_existing` and the constructor of include/ultranet/actor/dist/receiver_log.h.
use ultra_net.Prelude.{
  ℕ, Bool, true, false, List, [], ◌∷◌, Option, none, some, ◌==◌, if◌then◌else◌, Bytes, drop,
}
use ultra_net.Log.{Frame, undefined, scanned, scan, read_le_u64}
use ultra_net.ReceiverLog.Index.{Key, Entry, Item, modify, emplace}
use ultra_net.ReceiverLog.State.{State}
use ultra_net.ReceiverLog.Flush.{magic, put_handled}

unfoldable pub key_of : Frame → Key
key_of f = record { sender = read_le_u64 f.ids; msg_id = read_le_u64 (drop 8 f.ids) }

unfoldable pub old_entry : Bytes → Entry
old_entry frame = record {
  frame = frame;
  reply_conn_id = 0;
  persisted = true;
  executed = false;
  enqueued = false;
  handled = false;
}

-- What the loop of `scan_existing` does with a record.
unfoldable pub load_frame : Frame → List Item → List Item
load_frame f m =
    if f.type == 1
    then emplace (key_of f) (old_entry f.body) m
    else if f.type == 2
    then modify (key_of f) put_handled m
    else m

unfoldable pub load : List Frame → List Item → List Item
load [] m = m
load (f ∷ fs) m = load fs (load_frame f m)

unfoldable pub started : Bytes → Bool → List Item → ℕ → State
started bytes opened m torn = record {
  fd_open = opened;
  file = bytes;
  torn = torn;
  index = m;
  pending = [];
  group_open = false;
  group_start = 0;
  fsynced_data = 0;
  fsynced_handled = 0;
}

-- The file, and whether `open` gives a descriptor; none where the scan reads out of bounds.
unfoldable pub receiver_log : Bytes → Bool → Option State
receiver_log bytes opened = elim (scan magic 16 bytes) [
  | undefined ↦ none
  | scanned fs bad ↦ some (started bytes opened (load fs []) (if bad then 1 else 0))
]
