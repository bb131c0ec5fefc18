-- ===== src/Sender/Restart.antt =====
-- Sender.antt: a node that starts again on the log of its last run.
use ultra_net.Prelude.{
  if◌then◌else◌, ◌∙◌, ap, ℕ, ◌<◌, ◌^◌, ◌≡◌, refl, Bool, true, false, List, [], ◌∷◌, Option, some,
  arith, ◌==◌, length, Bytes,
}
use ultra_net.Log.{Frame, scanned, scan}
use ultra_net.RemoteLog.{magic, mem, data_ids, RemoteLog, remote_log, append_data, answers}
use ultra_net.RemoteLog.Open.{remote_log-scan}
use ultra_net.Sender.{
  Sender, Disk, alloc_msg_id, log_data, logged, track, track_unacked, post_frame,
}
use ultra_net.Sender.Events.{
  BufferedMessage, RemoteProxy, frame_of, try_post, try_deliver, remote_accept,
}

-- The members of `actor_system` as it is constructed, on this log.
unfoldable pub started : Option RemoteLog → Sender
started log = record {
  log = log;
  unacked = [];
  next_msg_id = 1;
  resent = 0;
  ack_timeout_resend = 0;
  posted = [];
}

append_data_again :
    (l : RemoteLog) (id : ℕ) (body : Bytes) (os : List (Option ℕ)) (synced : Bool)
    → mem id l.ids ≡ true
    → append_data l id body os synced ≡ (l, answers true)
unfolding append_data
append_data_again l id body os synced h = ground (arith, h)

-- The log takes a message whose id it knows, and stays as it is.
track_known :
    (s : Sender) (l : RemoteLog) (node id : ℕ) (frame : Bytes) (now : ℕ) (disk : Disk)
    → s.log ≡ some l
    → mem id l.ids ≡ true
    → track s node id frame now disk
      ≡ some (track_unacked (record s { log = some l }) node id frame now, true)
unfolding track log_data logged
track_known s l node id frame now disk log known =
    ground (arith, log, append_data_again l id frame disk.writes disk.synced known)

deliver_known :
    (p : RemoteProxy) (s : Sender) (l : RemoteLog) (m : BufferedMessage) (now : ℕ) (disk : Disk)
    → p.connected ≡ true
    → (length m.payload == 0) ≡ false
    → s.log ≡ some l
    → mem m.msg_id l.ids ≡ true
    → let t = track_unacked (record s { log = some l }) p.node m.msg_id (frame_of p m) now in
      try_deliver p s m now disk ≡ some (p, post_frame t p.node (frame_of p m) true, true)
unfolding try_deliver try_post
deliver_known p s l m now disk up some_data log known =
    ground (arith, up, some_data, track_known s l p.node m.msg_id (frame_of p m) now disk log known)

-- The first message of a node.
abbrev pub first_of : ℕ → Bytes → ℕ → BufferedMessage
first_of msg_type payload flags = record {
  msg_type = msg_type;
  msg_id = 1;
  flags = flags;
  payload = payload;
}

-- A node starts on a log, of less than 2 ^ 32 bytes, in which the scan finds a data record with the id
-- 1, as the last run has written it, and sends its first message, with a payload, over a proxy with a
-- valid connection. The log opens, the frame is posted and `remote_accept` answers true, but the file is as it
-- was: the message is not in it.
pub restarted_not_logged :
    (bytes : Bytes) (fs : List Frame) (bad : Bool) (p : RemoteProxy) (msg_type : ℕ)
    (payload : Bytes) (flags now : ℕ) (disk : Disk)
    → length bytes < 2 ^ 32
    → scan magic 8 bytes ≡ scanned fs bad
    → mem 1 (data_ids fs) ≡ true
    → p.connected ≡ true
    → (length payload == 0) ≡ false
    → (l : RemoteLog) × (t : Sender) × (remote_log bytes true ≡ some l)
      × (remote_accept p (started (some l)) msg_type payload flags now disk ≡ some (p, t, true))
      × (t.posted ≡ (p.node, frame_of p (first_of msg_type payload flags)) ∷ [])
      × (t.log ≡ some l)
      × (l.file ≡ bytes)
unfolding remote_accept started alloc_msg_id post_frame track_unacked
restarted_not_logged bytes fs bad p msg_type payload flags now disk small found known up some_data =
    let l : RemoteLog = record { fd_open = true; file = bytes; ids = data_ids fs } in
    let (id, s) = alloc_msg_id (started (some l)) in
    let m = first_of msg_type payload flags in
    let t = track_unacked (record s { log = some l }) p.node 1 (frame_of p m) now in
    (
      l,
      post_frame t p.node (frame_of p m) true,
      remote_log-scan bytes true {fs = fs} {bad = bad} small found,
      ap (λ b. if b then some (p, started (some l), false) else try_deliver p s m now disk)
            some_data
          ∙ deliver_known p s l m now disk up some_data refl known,
      refl,
      refl,
      refl,
    )
