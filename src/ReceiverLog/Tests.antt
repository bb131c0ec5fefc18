-- ===== src/ReceiverLog/Tests.antt =====
-- Runs of the receiver's log on small inputs.
use ultra_net.Prelude.{◌≡◌, refl, true, false, List, [], ◌∷◌, some, arith, codes, All, ◌⊎◌}
use ultra_net.Log.{
  Frame, log_bytes, frame_bytes, covered, crc32_iso_hdlc, crc_bits, crc_bytes, write_le_u32,
  write_le_u64,
}
use ultra_net.ReceiverLog.Index.{Key, same, find, modify, emplace, contains}
use ultra_net.ReceiverLog.State.{
  copy_frame, State, buffer_data, persisted, executed, enqueued, has_data, append_pending,
  buffer_handled, handled_durable, is_waiting, mark_executed, new_entry, pending_handled,
  put_executed, put_reply_conn, with_index,
}
use ultra_net.ReceiverLog.Flush.{
  wrote, interrupted, failed, FlushResult, flush_ready, magic, frame_of, not_ok, batch_bytes,
  commit_acks, commit_batch, commit_index, commit_keys, commit_rec, commit_written, committed,
  count_type, erase_unpersisted, is_ready, nothing, put_handled, put_persisted, rollback,
  swap_pending, to_run, with_file, write_full,
}
use ultra_net.ReceiverLog.Open.{receiver_log, started}
use ultra_net.ReceiverLog.Run.{
  Op, buffer_data_op, buffer_handled_op, mark_executed_op, flush_ready_op, step, run, AllSucceed,
  new-IsDurable, Succeeds,
}
use ultra_net.ReceiverLog.Steps.{buffer_data-IsDurable}
use ultra_net.ReceiverLog.Restart.{Sends, receiver_log-run}
use ultra_net.ReceiverLog.Acks.{flush_ready-acks, IsHandledIn}
use ultra_net.ReceiverLog.Failure.{flush_ready_failed}
use ultra_net.ReceiverLog.Due.{flush_ready_due}

abbrev empty : State
empty = started [] true [] 0

abbrev key : Key
key = record { sender = 3; msg_id = 7 }

-- A message is taken, written, executed, and noted as handled.
abbrev ops : List Op
ops =
    buffer_data_op 0 key (codes "m") 5
    ∷ flush_ready_op 2000000 (interrupted ∷ wrote 20 ∷ wrote 10 ∷ []) true
    ∷ mark_executed_op key
    ∷ buffer_handled_op 2000000 key 5
    ∷ []

abbrev wrote_one : FlushResult
wrote_one = record { ok = true; data_keys = key ∷ []; acks = [] }

ops_succeed : AllSucceed empty ops
unfolding frame_bytes covered crc32_iso_hdlc crc_bits crc_bytes write_le_u32 write_le_u64 same find
    modify emplace contains append_pending buffer_data buffer_handled executed handled_durable
    has_data is_waiting mark_executed new_entry pending_handled persisted put_executed
    put_reply_conn with_index batch_bytes commit_acks commit_batch commit_index commit_keys
    commit_rec commit_written committed count_type erase_unpersisted flush_ready frame_of is_ready
    not_ok nothing put_handled put_persisted rollback swap_pending to_run with_file write_full
    started step run AllSucceed Succeeds
ops_succeed = (
  (omega arith, omega arith, (omega arith, tt), omega arith),
  ((wrote_one, refl, refl), (tt, ((omega arith, omega arith), tt))),
)

receiver_log-run_example :
    (s : State) × (receiver_log (run empty ops).file true ≡ some s)
    × (s.torn ≡ 0)
    × (persisted s key ≡ true)
    × (executed s key ≡ false)
    × (enqueued s key ≡ false)
    × (copy_frame s key ≡ codes "m")
unfolding Sends frame_bytes covered crc32_iso_hdlc crc_bits crc_bytes write_le_u32 write_le_u64 same
    find modify emplace contains append_pending buffer_data buffer_handled executed handled_durable
    has_data is_waiting mark_executed new_entry pending_handled persisted put_executed
    put_reply_conn with_index batch_bytes commit_acks commit_batch commit_index commit_keys
    commit_rec commit_written committed count_type erase_unpersisted flush_ready frame_of is_ready
    not_ok nothing put_handled put_persisted rollback swap_pending to_run with_file write_full
    started step run AllSucceed Succeeds
receiver_log-run_example =
    receiver_log-run ops key (codes "m") ops_succeed (λ _. refl, (tt, (tt, (tt, tt)))) refl

abbrev wrote_two : FlushResult
wrote_two = record {
  ok = true;
  data_keys = [];
  acks = record { reply_conn_id = 5; msg_id = 7 } ∷ [];
}

flush_ready-acks_example :
    (wrote_two.acks ≡ [])
    ⊎ ((gs : List Frame) × ((flush_ready (run empty ops) 4000000 (wrote 29 ∷ []) true).0.file
          ≡ log_bytes magic gs)
        × All (IsHandledIn ops gs) wrote_two.acks)
unfolding frame_bytes covered crc32_iso_hdlc crc_bits crc_bytes write_le_u32 write_le_u64 same find
    modify emplace contains append_pending buffer_data buffer_handled executed handled_durable
    has_data is_waiting mark_executed new_entry pending_handled persisted put_executed
    put_reply_conn with_index batch_bytes commit_acks commit_batch commit_index commit_keys
    commit_rec commit_written committed count_type erase_unpersisted flush_ready frame_of is_ready
    not_ok nothing put_handled put_persisted rollback swap_pending to_run with_file write_full
    started step run AllSucceed Succeeds
flush_ready-acks_example =
    flush_ready-acks ops 4000000 (wrote 29 ∷ []) true wrote_two ops_succeed refl

abbrev taken : State
taken = (buffer_data empty 0 key (codes "m") 5).0

flush_ready_failed_example :
    has_data (flush_ready taken 2000000 (wrote 9 ∷ failed ∷ []) true).0 key ≡ persisted taken key
unfolding frame_bytes covered crc32_iso_hdlc crc_bits crc_bytes write_le_u32 write_le_u64 same find
    modify emplace contains append_pending buffer_data buffer_handled executed handled_durable
    has_data is_waiting mark_executed new_entry pending_handled persisted put_executed
    put_reply_conn with_index batch_bytes commit_acks commit_batch commit_index commit_keys
    commit_rec commit_written committed count_type erase_unpersisted flush_ready frame_of is_ready
    not_ok nothing put_handled put_persisted rollback swap_pending to_run with_file write_full
    started step run AllSucceed Succeeds
flush_ready_failed_example =
    flush_ready_failed taken [] 2000000 (wrote 9 ∷ failed ∷ []) true not_ok key
      (buffer_data-IsDurable empty [] 0 key (codes "m") 5 new-IsDurable (omega arith) (omega arith)
        (omega arith, tt) (omega arith))
      refl refl

flush_ready_due_example : (flush_ready (run empty ops) 4000000 (failed ∷ []) true).0.pending ≡ []
unfolding frame_bytes covered crc32_iso_hdlc crc_bits crc_bytes write_le_u32 write_le_u64 same find
    modify emplace contains append_pending buffer_data buffer_handled executed handled_durable
    has_data is_waiting mark_executed new_entry pending_handled persisted put_executed
    put_reply_conn with_index batch_bytes commit_acks commit_batch commit_index commit_keys
    commit_rec commit_written committed count_type erase_unpersisted flush_ready frame_of is_ready
    not_ok nothing put_handled put_persisted rollback swap_pending to_run with_file write_full
    started step run AllSucceed Succeeds
flush_ready_due_example = flush_ready_due [] true [] 0 ops 4000000 (failed ∷ []) true (omega arith)
