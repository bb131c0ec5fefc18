-- ===== src/ReceiverLog/State.antt =====
-- The state of `receiver_log` in include/ultranet/actor/dist/receiver_log.h, and the operations that
-- work on the index and on the pending records. The time is in nanoseconds.
use ultra_net.Prelude.{
  ℕ, Bool, true, false, List, [], ◌∷◌, ◌++◌, none, some, ◌==◌, if◌then◌else◌, Bytes, ◌&&◌, ◌||◌,
  not,
}
use ultra_net.Wire.{unpack_routed}
use ultra_net.ReceiverLog.Index.{Key, same, Entry, Item, find, modify, erase, emplace, contains}

pub record PendingRec : Type 0 where
  pub type : ℕ
  pub id : Key
  pub reply_conn_id : ℕ
  pub body : Bytes

pub record State : Type 0 where
  pub fd_open : Bool
  pub file : Bytes
  pub torn : ℕ
  pub index : List Item
  pub pending : List PendingRec
  pub group_open : Bool
  pub group_start : ℕ
  pub fsynced_data : ℕ
  pub fsynced_handled : ℕ

unfoldable pub with_index : State → List Item → State
with_index s m = record {
  fd_open = s.fd_open;
  file = s.file;
  torn = s.torn;
  index = m;
  pending = s.pending;
  group_open = s.group_open;
  group_start = s.group_start;
  fsynced_data = s.fsynced_data;
  fsynced_handled = s.fsynced_handled;
}

unfoldable pub executed : State → Key → Bool
executed s k = elim (find k s.index) [ none ↦ false | some e ↦ e.executed ]

unfoldable pub handled_durable : State → Key → Bool
handled_durable s k = elim (find k s.index) [ none ↦ false | some e ↦ e.handled ]

unfoldable pub has_data : State → Key → Bool
has_data s k = contains k s.index

unfoldable pub persisted : State → Key → Bool
persisted s k = elim (find k s.index) [ none ↦ false | some e ↦ e.persisted ]

unfoldable pub enqueued : State → Key → Bool
enqueued s k = elim (find k s.index) [ none ↦ false | some e ↦ e.enqueued ]

unfoldable pub copy_frame : State → Key → Bytes
copy_frame s k = elim (find k s.index) [ none ↦ [] | some e ↦ e.frame ]

unfoldable pub reply_conn : State → Key → ℕ
reply_conn s k = elim (find k s.index) [ none ↦ 0 | some e ↦ e.reply_conn_id ]

unfoldable pub put_enqueued : Bool → Entry → Entry
put_enqueued v e = record {
  frame = e.frame;
  reply_conn_id = e.reply_conn_id;
  persisted = e.persisted;
  executed = e.executed;
  enqueued = v;
  handled = e.handled;
}

unfoldable pub put_executed : Entry → Entry
put_executed e = record {
  frame = e.frame;
  reply_conn_id = e.reply_conn_id;
  persisted = e.persisted;
  executed = true;
  enqueued = false;
  handled = e.handled;
}

unfoldable pub put_reply_conn : ℕ → Entry → Entry
put_reply_conn c e = record {
  frame = e.frame;
  reply_conn_id = c;
  persisted = e.persisted;
  executed = e.executed;
  enqueued = e.enqueued;
  handled = e.handled;
}

unfoldable pub set_enqueued : State → Key → Bool → State
set_enqueued s k v = with_index s (modify k (put_enqueued v) s.index)

unfoldable pub mark_executed : State → Key → State
mark_executed s k = with_index s (modify k put_executed s.index)

unfoldable pub drop_key : State → Key → State
drop_key s k = with_index s (erase k s.index)

-- `open_group_locked`, and the record behind the others.
unfoldable pub append_pending : State → ℕ → PendingRec → State
append_pending s now r = record {
  fd_open = s.fd_open;
  file = s.file;
  torn = s.torn;
  index = s.index;
  pending = s.pending ++ (r ∷ []);
  group_open = true;
  group_start = if s.group_open then s.group_start else now;
  fsynced_data = s.fsynced_data;
  fsynced_handled = s.fsynced_handled;
}

unfoldable pub new_entry : Bytes → ℕ → Entry
new_entry frame conn = record {
  frame = frame;
  reply_conn_id = conn;
  persisted = false;
  executed = false;
  enqueued = false;
  handled = false;
}

unfoldable pub buffer_data : State → ℕ → Key → Bytes → ℕ → State × Bool
buffer_data s now k frame conn = if contains k s.index then (s, false) else (
  append_pending (with_index s (emplace k (new_entry frame conn) s.index)) now
      (record { type = 1; id = k; reply_conn_id = conn; body = frame }),
  true,
)

unfoldable pub pending_handled : Key → List PendingRec → Bool
pending_handled k [] = false
pending_handled k (r ∷ rs) = ((r.type == 2) && same r.id k) || pending_handled k rs

unfoldable pub buffer_handled : State → ℕ → Key → ℕ → State
buffer_handled s now k conn =
    let s' = with_index s (modify k (put_reply_conn conn) s.index) in
    if not (contains k s.index)
    then s
    else if handled_durable s k || pending_handled k s.pending
    then s'
    else append_pending s' now (record { type = 2; id = k; reply_conn_id = conn; body = [] })

unfoldable pub is_waiting : Entry → Bool
is_waiting e = e.persisted && not e.executed && not e.enqueued

unfoldable pub is_empty : Bytes → Bool
is_empty [] = true
is_empty (b ∷ s) = false

unfoldable pub same_string : Bytes → Bytes → Bool
same_string [] [] = true
same_string [] (b ∷ t) = false
same_string (a ∷ s) [] = false
same_string (a ∷ s) (b ∷ t) = (a == b) && same_string s t

unfoldable pub for_actor : Bytes → Bytes → Bytes → Bool
for_actor type name frame = elim (unpack_routed frame) [
  | none ↦ false
  | some m ↦ same_string m.uri.type type && same_string m.uri.name name
]

-- `replay_item`.
pub record ReplayItem : Type 0 where
  pub id : Key
  pub frame : Bytes

unfoldable pub takes : Bytes → Bytes → Entry → Bool
takes type name e = is_waiting e && not (is_empty e.frame) && for_actor type name e.frame

unfoldable pub take_items : Bytes → Bytes → List Item → List ReplayItem
take_items type name [] = []
take_items type name (i ∷ m) =
    let rest = take_items type name m in
    if takes type name i.entry then record { id = i.id; frame = i.entry.frame } ∷ rest else rest

unfoldable pub mark_taken : Bytes → Bytes → List Item → List Item
mark_taken type name [] = []
mark_taken type name (i ∷ m) =
    let rest = mark_taken type name m in
    if takes type name i.entry
    then record { id = i.id; entry = put_enqueued true i.entry } ∷ rest
    else i ∷ rest

unfoldable pub take_for_actor : State → Bytes → Bytes → State × List ReplayItem
take_for_actor s type name =
    (with_index s (mark_taken type name s.index), take_items type name s.index)

unfoldable pub waiting_keys : List Item → List Key
waiting_keys [] = []
waiting_keys (i ∷ m) = let rest = waiting_keys m in if is_waiting i.entry then i.id ∷ rest else rest
