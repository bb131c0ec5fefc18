-- ===== src/Sender/Tests.antt =====
-- Sender.antt at concrete inputs.
use ultra_net.Prelude.{
  ◌≡◌, refl, true, false, List, [], ◌∷◌, ◌++◌, none, some, codes, replicate, arith, Bytes, Option,
  Bool,
}
use ultra_net.Log.{Frame, frame_bytes, log_bytes, scanned, scan}
use ultra_net.RemoteLog.{magic, RemoteLog, record_of, remote_log, data_ids, mem}
use ultra_net.Sender.{
  UnackedItem, Sender, Disk, find, erase, log_data, log_ack, note_ack, mark_dead, on_link_dead,
  post_frame, pending, mark_sent, resend, resend_unacked, is_due, due, restamp, post_due,
  ack_timeout,
}
use ultra_net.Sender.Events.{
  BufferedMessage, RemoteProxy, frame_of, try_deliver, remote_accept, Event, acked, delivers,
  link_dead, reconnected, timeout, step, run,
}
use ultra_net.Sender.Kept.{Holds}
use ultra_net.Sender.Acked.{Leaves, kept_until_acked}
use ultra_net.Sender.Resend.{frames_of, of_node, dead_link_resent, refused_but_sent}
use ultra_net.Sender.Restart.{started, first_of, restarted_not_logged}

abbrev first : UnackedItem
first = record { msg_id = 7; frame = codes "first"; sent_at = 10; node = 3; needs_resend = false }

abbrev second : UnackedItem
second = record { msg_id = 8; frame = codes "second"; sent_at = 20; node = 4; needs_resend = false }

abbrev start : Sender
start = record {
  log = none;
  unacked = first ∷ second ∷ [];
  next_msg_id = 9;
  resent = 0;
  ack_timeout_resend = 0;
  posted = [];
}

abbrev disk : Disk
disk = record { writes = []; synced = true }

abbrev events : List Event
events = acked 8 disk ∷ link_dead 3 ∷ reconnected 3 30 true ∷ timeout 100 130 (λ _. true) ∷ []

abbrev final : Sender
final = record {
  log = none;
  unacked = record first { sent_at = 130 } ∷ [];
  next_msg_id = 9;
  resent = 1;
  ack_timeout_resend = 1;
  posted = (3, codes "first") ∷ (3, codes "first") ∷ [];
}

-- The link to the node of the first message dies and comes back, and the time for its acknowledgement
-- passes: it is posted twice.
posted_twice : run start events ≡ some final
unfolding run step note_ack log_ack erase on_link_dead mark_dead resend_unacked pending resend
    post_frame mark_sent ack_timeout due is_due restamp post_due
posted_twice = refl

kept_until_acked_example : Holds 7 (codes "first") 3 final.unacked
unfolding Holds Leaves find
kept_until_acked_example =
    kept_until_acked 7 (codes "first") 3 start final events posted_twice
      (refl, (tt, (tt, (tt, tt)))) (first, refl, refl, refl)

dead_link_resent_example :
    (resend_unacked (on_link_dead start 3) 3 30 true).posted
    ≡ start.posted ++ frames_of (of_node 3 start.unacked)
dead_link_resent_example = dead_link_resent start 3 30

abbrev message : BufferedMessage
message = record { msg_type = 1; msg_id = 9; flags = 0; payload = codes "m" }

abbrev away : RemoteProxy
away = record {
  uri = record { node = codes "*"; type = codes "t"; name = codes "n" };
  node = 5;
  self_node = 1;
  connected = false;
  buffered = replicate 1024 message;
}

refused_but_sent_example :
    (t : Sender) × (rest : List UnackedItem) × (try_deliver away start message 40 disk
      ≡ some (away, t, false))
    × ((ack_timeout t 100 140 (λ _. true)).posted
        ≡ [] ++ ((5, frame_of away message) ∷ frames_of rest))
unfolding log_data
refused_but_sent_example =
    refused_but_sent away start start message 40 140 100 disk refl refl refl refl refl

abbrev old_record : Frame
old_record = record_of 1 1 (codes "x")

abbrev old_file : Bytes
old_file = log_bytes magic (old_record ∷ [])

abbrev near : RemoteProxy
near = record away { connected = true; buffered = [] }

restarted_not_logged_example :
    (l : RemoteLog) × (t : Sender) × (remote_log old_file true ≡ some l)
    × (remote_accept near (started (some l)) 4 (codes "new") 0 10 disk ≡ some (near, t, true))
    × (t.posted ≡ (5, frame_of near (first_of 4 (codes "new") 0)) ∷ [])
    × (t.log ≡ some l)
    × (l.file ≡ old_file)
unfolding scan ultra_net.Log.scan_loop log_bytes frame_bytes ultra_net.Log.read_frame
    ultra_net.Log.covered record_of ultra_net.Log.write_le_u64 ultra_net.Log.write_le_u32
    ultra_net.Log.has_prefix ultra_net.Log.read_fields ultra_net.Log.read_le_u32
    ultra_net.Log.read_body ultra_net.Log.crc32_iso_hdlc ultra_net.Log.crc_bytes
    ultra_net.Log.crc_bits ultra_net.RemoteLog.mem data_ids ultra_net.RemoteLog.is_data
    ultra_net.RemoteLog.msg_id ultra_net.Log.read_le_u64
restarted_not_logged_example =
    restarted_not_logged old_file (old_record ∷ []) false near 4 (codes "new") 0 10 disk
      (omega arith) refl refl refl refl

abbrev log_start : Sender
log_start = started (some (record { fd_open = true; file = []; ids = [] }))

-- A message that the log takes and the connection too, and an acknowledgement that the log does not
-- take.
abbrev kept_events : List Event
kept_events =
    delivers near message 40 (record { writes = some 999 ∷ []; synced = true })
    ∷ acked 9 (record { writes = none ∷ []; synced = true })
    ∷ []

is_some : Option Sender → Bool
is_some none = false
is_some (some t) = true

run_or_start : Option Sender → Sender
run_or_start none = log_start
run_or_start (some t) = t

left : Sender
left = run_or_start (run log_start kept_events)
