-- ===== src/RemoteLog/Tests.antt =====
-- Runs of RemoteLog.antt on small inputs.
use ultra_net.Prelude.{◌≡◌, refl, true, false, List, [], ◌∷◌, ◌++◌, some, none, arith, codes, ◌⊎◌}
use ultra_net.Log.{Frame, frame_bytes, log_bytes, scanned, scan}
use ultra_net.Log.Frames.{IsFrame}
use ultra_net.RemoteLog.{
  magic, RemoteLog, RemoteLogScan, answers, append_data, append_ack, remote_log, scan_remote_log,
  scan_result, record_of, append_record_locked, data_ids,
}
use ultra_net.RemoteLog.Append.{IsLog, IsCall, record_of-IsFrame}
use ultra_net.RemoteLog.Recovery.{
  Call, data_call, ack_call, run, asked, scan_remote_log-run, append_record_locked_cut, empty-IsLog,
}
use ultra_net.RemoteLog.Loss.{append_data_lost}
use ultra_net.RemoteLog.Open.{remote_log-scan}

abbrev empty : RemoteLog
empty = record { fd_open = true; file = []; ids = [] }

-- A message whose record is written in two pieces, another, and an acknowledgement of the first.
abbrev calls : List Call
calls =
    data_call 7 (codes "hello") (some 10 ∷ some 16 ∷ []) true
    ∷ data_call 8 (codes "x") (some 22 ∷ []) true
    ∷ data_call 7 (codes "hello") [] true
    ∷ ack_call 7 (some 21 ∷ []) true
    ∷ []

left_to_send :
    scan_result (asked [] calls) false
    ≡ record { complete_data = 2; torn = 0; unacked_frames = codes "x" ∷ [] }
unfolding scan_result data_ids ultra_net.RemoteLog.unacked asked ultra_net.RemoteLog.Append.add_ack
    ultra_net.RemoteLog.Append.add_data ultra_net.RemoteLog.mem ultra_net.RemoteLog.is_data
    record_of ultra_net.RemoteLog.msg_id ultra_net.Log.read_le_u64 ultra_net.Log.write_le_u64
    ultra_net.RemoteLog.acked_ids ultra_net.RemoteLog.is_ack
left_to_send = refl

hello_fits : IsCall 7 (codes "hello")
hello_fits = record {
  msg_id = omega arith;
  bytes = (omega arith, (omega arith, (omega arith, (omega arith, (omega arith, tt)))));
  size = omega arith;
}

x_fits : IsCall 8 (codes "x")
x_fits = record { msg_id = omega arith; bytes = (omega arith, tt); size = omega arith }

scan_remote_log-run_example :
    scan_remote_log (some (run empty calls).file) ≡ some (scan_result (asked [] calls) false)
unfolding ultra_net.RemoteLog.Recovery.IsCallOf ultra_net.RemoteLog.Recovery.AllAnswer
    ultra_net.RemoteLog.Recovery.call append_data ultra_net.RemoteLog.mem append_record_locked
    ultra_net.RemoteLog.fsync ultra_net.RemoteLog.write_loop frame_bytes ultra_net.Log.covered
    record_of ultra_net.Log.write_le_u64 ultra_net.Log.write_le_u32 ultra_net.RemoteLog.insert_id
    append_ack
scan_remote_log-run_example =
    scan_remote_log-run calls (hello_fits, (x_fits, (hello_fits, (omega arith, tt))))
      (refl, (refl, (refl, (refl, tt))))

x-IsFrame : IsFrame 8 (record_of 1 8 (codes "x"))
x-IsFrame = record_of-IsFrame 1 8 (codes "x") (omega arith) x_fits

append_record_locked_cut_example :
    let found = scan_remote_log (
      some
        (append_record_locked empty
          (record_of 1 8 (codes "x"))
          (some 5 ∷ none ∷ [])
          true).0.file) in
    (found ≡ some (scan_result [] false))
    ⊎ (found ≡ some (scan_result [] true))
    ⊎ (found ≡ some (scan_result ([] ++ (record_of 1 8 (codes "x") ∷ [])) false))
append_record_locked_cut_example =
    append_record_locked_cut empty [] (record_of 1 8 (codes "x")) (some 5 ∷ none ∷ []) true
      empty-IsLog x-IsFrame

append_data_lost_example :
    scan_remote_log (
      some
        (append_data
          (append_data empty 7 (codes "hello") (some 2 ∷ none ∷ []) true).0
          8
          (codes "x")
          (some 22 ∷ [])
          true).0.file)
    ≡ some (scan_result [] true)
unfolding ultra_net.RemoteLog.mem data_ids append_data ultra_net.RemoteLog.insert_id
    append_record_locked ultra_net.RemoteLog.fsync ultra_net.RemoteLog.write_loop frame_bytes
    ultra_net.Log.covered record_of ultra_net.Log.write_le_u64 ultra_net.Log.write_le_u32
append_data_lost_example =
    append_data_lost empty [] 7 8 2 (codes "hello") (codes "x") (some 22 ∷ []) true empty-IsLog refl
      hello_fits x_fits refl refl (omega arith) (omega arith) refl

remote_log-scan_example :
    remote_log (log_bytes magic (record_of 1 8 (codes "x") ∷ [])) true
    ≡ some (record {
      fd_open = true;
      file = log_bytes magic (record_of 1 8 (codes "x") ∷ []);
      ids = data_ids (record_of 1 8 (codes "x") ∷ []);
    })
unfolding scan ultra_net.Log.scan_loop log_bytes frame_bytes ultra_net.Log.read_frame
    ultra_net.Log.covered record_of ultra_net.Log.write_le_u64 ultra_net.Log.write_le_u32
    ultra_net.Log.has_prefix ultra_net.Log.read_fields ultra_net.Log.read_le_u32
    ultra_net.Log.read_body ultra_net.Log.crc32_iso_hdlc ultra_net.Log.crc_bytes
    ultra_net.Log.crc_bits
remote_log-scan_example =
    remote_log-scan (log_bytes magic (record_of 1 8 (codes "x") ∷ [])) true
      {fs = record_of 1 8 (codes "x") ∷ []} {bad = false} (omega arith) refl
