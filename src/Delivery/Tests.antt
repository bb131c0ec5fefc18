-- ===== src/Delivery/Tests.antt =====
-- Delivery.antt at concrete inputs.
use ultra_net.Prelude.{
  ℕ, ◌+◌, ◌≤◌, ◌≡◌, refl, Bool, true, false, List, [], ◌∷◌, ◌++◌, Option, none, some, arith, Bytes,
  All, length, false, codes, inl,
}
use ultra_net.Log.{
  crc_bits, crc_bytes, crc32_iso_hdlc, write_le_u32, write_le_u64, covered, frame_bytes,
}
use ultra_net.Uri.{ActorUri, to_string, split_slash, parse_uri_from_wire}
use ultra_net.Wire.{read_u8, read_u32, read_u64, read_string, read_payload, unpack_routed}
use ultra_net.ReceiverLog.Index.{Key, same, find, modify, emplace, contains}
use ultra_net.ReceiverLog.State.{
  executed, handled_durable, has_data, persisted, enqueued, copy_frame, reply_conn, put_enqueued,
  put_executed, put_reply_conn, set_enqueued, mark_executed, drop_key, append_pending, new_entry,
  buffer_data, pending_handled, buffer_handled, is_waiting, is_empty, same_string, for_actor, takes,
  take_items, mark_taken, take_for_actor, waiting_keys, with_index,
}
use ultra_net.ReceiverLog.Flush.{
  wrote, frame_of, batch_bytes, write_full, erase_unpersisted, rollback, put_persisted, put_handled,
  commit_rec, commit_index, to_run, commit_keys, commit_acks, count_type, committed, with_file,
  nothing, not_ok, commit_written, commit_batch, swap_pending, is_ready, flush_ready,
}
use ultra_net.ReceiverLog.Open.{started}
use ultra_net.Delivery.{
  Envelope, Node, DedupItem, in_progress, completed, erase, lookup, complete, is_completed,
  any_completed, dedup_room_for, peek_dedup, find_victim, emplace_running, claim_evicting,
  claim_place, claim_remote, post_remote_ack, note_wire_skip, with_rcv,
}
use ultra_net.Delivery.Push.{
  find_text, find_name, find_local_proxy, push_envelope, envelope_of, push_routed,
  push_routed_frame, settle, push_marked, enqueue_in, try_enqueue_receiver, enqueue_all,
  pump_receiver_waiting, push_item, push_items, replay_receiver_for,
}
use ultra_net.Delivery.Accept.{
  Io, ok, post_acks, apply_receiver_flush, flush, flush_round, accept_executed,
  accept_logged_routed, key_of_routed, accept_routed, handle_routed, key_of_envelope, after_claim,
  begin_dispatch, has_thrown, finish_table, finish_logged, finish_remote_delivery,
}
use ultra_net.Delivery.Run.{
  System, Event, arrives, flushes, begins, ends, spawns, take_at, count, remove, begin, end, step,
  run,
}
use ultra_net.Delivery.Once.{mails}
use ultra_net.Delivery.Held.{Owns}
use ultra_net.Delivery.Distinct.{IsDistinct}
use ultra_net.Delivery.Evict.{find_victim-IsOldest, table_bounded}
use ultra_net.Delivery.Once.{IsUnique}
use ultra_net.Delivery.Table.{older}
use ultra_net.Delivery.Sound.{handled_once}

abbrev calc : ActorUri
calc = record { node = codes "*"; type = codes "t"; name = codes "n" }

abbrev key : Key
key = record { sender = 3; msg_id = 7 }

-- A routed message with the body "m", byte by byte.
abbrev frame : Bytes
frame =
    4
    ∷ 0
    ∷ 0
    ∷ 0
    ∷ 0
    ∷ 0
    ∷ 0
    ∷ 0
    ∷ 0
    ∷ 7
    ∷ 0
    ∷ 0
    ∷ 0
    ∷ 0
    ∷ 0
    ∷ 0
    ∷ 0
    ∷ 3
    ∷ 0
    ∷ 0
    ∷ 0
    ∷ 13
    ∷ (codes "ultra://*/t/n" ++ (0 ∷ 0 ∷ 0 ∷ 0 ∷ 0 ∷ 0 ∷ 0 ∷ 9 ∷ 0 ∷ 0 ∷ 0 ∷ 1 ∷ codes "m"))

abbrev fresh_node : Node
fresh_node = record {
  logging = true;
  rcv = started [] true [] 0;
  hold_handler = false;
  dedup_cap = 4;
  dedup = [];
  dedup_overflow = 0;
  dedup_evict = 0;
  wire_skips = 0;
  actors = [];
  mail = [];
  acks = [];
}

abbrev at : ℕ → Io
at now = record { now = now; writes = wrote 999 ∷ []; synced = true }

-- The message comes twice, before an actor is there for it and while its handler runs, and once more
-- when it has been handled.
abbrev events : List Event
events =
    arrives frame 5 (at 0)
    ∷ flushes (at 2000000)
    ∷ spawns (record { uri = calc; shutting_down = false })
    ∷ begins 0
    ∷ arrives frame 5 (at 2000001)
    ∷ ends key 5 ok (at 2000002)
    ∷ arrives frame 5 (at 2000003)
    ∷ []

abbrev start : System
start = record { node = fresh_node; running = []; ended = [] }

is_some : Option System → Bool
is_some none = false
is_some (some t) = true

run_or_start : Option System → System
run_or_start none = start
run_or_start (some t) = t

the_run : (o : Option System) → is_some o ≡ true → o ≡ some (run_or_start o)
unfolding is_some run_or_start
the_run none h = absurd (cc h)
the_run (some t) h = refl

final : System
final = run_or_start (run start events)

runs_through : is_some (run start events) ≡ true
unfolding is_some same find modify emplace contains executed handled_durable has_data persisted
    enqueued copy_frame reply_conn put_enqueued put_executed put_reply_conn set_enqueued
    mark_executed drop_key append_pending new_entry buffer_data pending_handled buffer_handled
    is_waiting is_empty same_string for_actor takes take_items mark_taken take_for_actor
    waiting_keys with_index frame_of batch_bytes write_full erase_unpersisted rollback put_persisted
    put_handled commit_rec commit_index to_run commit_keys commit_acks count_type committed
    with_file nothing not_ok commit_written commit_batch swap_pending is_ready flush_ready crc_bits
    crc_bytes crc32_iso_hdlc write_le_u32 write_le_u64 covered frame_bytes read_u8 read_u32 read_u64
    read_string read_payload unpack_routed to_string split_slash parse_uri_from_wire lookup complete
    is_completed any_completed dedup_room_for peek_dedup find_victim emplace_running claim_evicting
    claim_place claim_remote post_remote_ack note_wire_skip with_rcv find_text find_name
    find_local_proxy push_envelope envelope_of push_routed push_routed_frame settle push_marked
    enqueue_in try_enqueue_receiver enqueue_all pump_receiver_waiting push_item push_items
    replay_receiver_for post_acks apply_receiver_flush flush flush_round accept_executed
    accept_logged_routed key_of_routed accept_routed handle_routed key_of_envelope after_claim
    begin_dispatch has_thrown finish_table finish_logged finish_remote_delivery take_at count remove
    begin end step run started
runs_through = refl

handled : final.ended ≡ key ∷ []
unfolding final run_or_start same find modify emplace contains executed handled_durable has_data
    persisted enqueued copy_frame reply_conn put_enqueued put_executed put_reply_conn set_enqueued
    mark_executed drop_key append_pending new_entry buffer_data pending_handled buffer_handled
    is_waiting is_empty same_string for_actor takes take_items mark_taken take_for_actor
    waiting_keys with_index frame_of batch_bytes write_full erase_unpersisted rollback put_persisted
    put_handled commit_rec commit_index to_run commit_keys commit_acks count_type committed
    with_file nothing not_ok commit_written commit_batch swap_pending is_ready flush_ready crc_bits
    crc_bytes crc32_iso_hdlc write_le_u32 write_le_u64 covered frame_bytes read_u8 read_u32 read_u64
    read_string read_payload unpack_routed to_string split_slash parse_uri_from_wire lookup complete
    is_completed any_completed dedup_room_for peek_dedup find_victim emplace_running claim_evicting
    claim_place claim_remote post_remote_ack note_wire_skip with_rcv find_text find_name
    find_local_proxy push_envelope envelope_of push_routed push_routed_frame settle push_marked
    enqueue_in try_enqueue_receiver enqueue_all pump_receiver_waiting push_item push_items
    replay_receiver_for post_acks apply_receiver_flush flush flush_round accept_executed
    accept_logged_routed key_of_routed accept_routed handle_routed key_of_envelope after_claim
    begin_dispatch has_thrown finish_table finish_logged finish_remote_delivery take_at count remove
    begin end step run started
handled = refl

handled_once_example :
    count key final.ended + (mails key final.node.mail + count key final.running) ≤ 1
unfolding started IsDistinct Owns count find final
handled_once_example =
    handled_once fresh_node [] events final key refl refl refl tt (λ j. tt) (λ j. inl refl)
      (the_run (run start events) runs_through)

abbrev key_2 : Key
key_2 = record { sender = 4; msg_id = 2 }

abbrev table : List DedupItem
table =
    record { id = record { sender = 9; msg_id = 1 }; state = in_progress }
    ∷ record { id = key; state = completed }
    ∷ record { id = key_2; state = completed }
    ∷ record { id = record { sender = 5; msg_id = 2 }; state = completed }
    ∷ []

table-IsUnique : IsUnique table
unfolding IsUnique lookup same
table-IsUnique = (refl, (refl, (refl, (refl, tt))))

find_victim-IsOldest_example :
    (lookup key_2 table ≡ some completed)
    × All (λ i. is_completed i.state ≡ true → older i.id key_2 ≡ false) table
unfolding find_victim is_completed
find_victim-IsOldest_example = find_victim-IsOldest table key_2 table-IsUnique refl

abbrev crowded : Node
crowded = record fresh_node { dedup = table }

table_bounded_example :
    (length (claim_remote crowded (record { sender = 6; msg_id = 8 })).0.dedup ≤ 4)
    × (length (finish_table crowded (record { sender = 6; msg_id = 8 }) ok) ≤ 4)
table_bounded_example =
    table_bounded crowded (record { sender = 6; msg_id = 8 }) ok table-IsUnique (omega arith)

abbrev full_table : List DedupItem
full_table =
    record { id = record { sender = 9; msg_id = 1 }; state = in_progress }
    ∷ record { id = record { sender = 9; msg_id = 2 }; state = in_progress }
    ∷ record { id = key_2; state = completed }
    ∷ []

-- The table is full, and the handler of the message runs.
abbrev logged : Node
logged = record crowded {
  dedup = record { id = key; state = in_progress } ∷ full_table;
  rcv = (buffer_data (started [] true [] 0) 0 key frame 5).0;
}

abbrev forgot : Node
forgot = record logged { dedup = erase key logged.dedup; rcv = drop_key logged.rcv key }

abbrev again : Envelope
again = record {
  msg_type = 9;
  correlation_id = 7;
  reply_conn_id = 5;
  sender_node_id = 3;
  flags = 0;
  body = codes "m";
}
