-- ===== src/Sender/Events.antt =====
-- Sender.antt: a remote proxy, and the events of a node that sends over it.
use ultra_net.Prelude.{
  ℕ, Bool, true, false, List, [], ◌∷◌, ◌++◌, Option, none, some, leb, ◌==◌, if◌then◌else◌, length,
  Bytes, ◌>>=◌,
}
use ultra_net.Uri.{ActorUri}
use ultra_net.Wire.{pack_routed}
use ultra_net.Sender.{
  Sender, Disk, alloc_msg_id, track, note_ack, note_send_failed, on_link_dead, post_frame,
  resend_unacked, ack_timeout,
}

abbrev pub max_buffered : ℕ
max_buffered = 1024

pub record BufferedMessage : Type 0 where
  pub msg_type : ℕ
  pub msg_id : ℕ
  pub flags : ℕ
  pub payload : Bytes

-- `connected` tells whether there is a connection and it is valid.
pub record RemoteProxy : Type 0 where
  pub uri : ActorUri
  pub node : ℕ
  pub self_node : ℕ
  pub connected : Bool
  pub buffered : List BufferedMessage

unfoldable pub frame_of : RemoteProxy → BufferedMessage → Bytes
frame_of p m = pack_routed (record {
  uri = p.uri;
  flags = m.flags;
  msg_id = m.msg_id;
  sender_node_id = p.self_node;
  msg_hash = m.msg_type;
  payload = m.payload;
})

-- `try_deliver` behind the hook.
unfoldable pub try_post : RemoteProxy → Sender → BufferedMessage → RemoteProxy × Sender × Bool
try_post p s m =
    if p.connected
    then (p, post_frame s p.node (frame_of p m) true, true)
    else if leb max_buffered (length p.buffered)
    then (p, s, false)
    else (record p { buffered = p.buffered ++ (m ∷ []) }, s, true)

-- `try_deliver` on a proxy with hooks and a pool.
unfoldable pub try_deliver :
    RemoteProxy → Sender → BufferedMessage → ℕ → Disk → Option (RemoteProxy × Sender × Bool)
try_deliver p s m now disk =
    let tracked = track s p.node m.msg_id (frame_of p m) now disk in
    if length m.payload == 0 then some (p, s, false) else elim tracked [
      | none ↦ none
      | some (s', false) ↦ some (p, s', false)
      | some (s', true) ↦ some (try_post p s' m)
    ]

-- `deliver`, which gives no answer.
unfoldable pub deliver : RemoteProxy → Sender → ℕ → Bytes → ℕ → Disk → Option (RemoteProxy × Sender)
deliver p s msg_type payload now disk =
    let (id, s') = alloc_msg_id s in
    let m : BufferedMessage = record {
      msg_type = msg_type;
      msg_id = id;
      flags = 0;
      payload = payload;
    } in
    elim (try_deliver p s' m now disk) [ none ↦ none | some x ↦ some (x.0, x.1) ]

-- `remote_accept` of a message with flags, up to its first answer, which is its own if it does not
-- wait for room.
unfoldable pub remote_accept :
    RemoteProxy → Sender → ℕ → Bytes → ℕ → ℕ → Disk → Option (RemoteProxy × Sender × Bool)
remote_accept p s msg_type payload flags now disk =
    let (id, s') = alloc_msg_id s in
    let m : BufferedMessage = record {
      msg_type = msg_type;
      msg_id = id;
      flags = flags;
      payload = payload;
    } in
    let accepted = try_deliver p s' m now disk in
    if length payload == 0 then some (p, s, false) else accepted

-- The loop of `connect_and_flush`; each message takes its own part of the file.
unfoldable pub flush_buffered :
    RemoteProxy → Sender → List BufferedMessage → ℕ → List Disk → Bool → Option Sender
flush_buffered p s [] now disks valid = some s
flush_buffered p s (m ∷ ms) now [] valid = none
flush_buffered p s (m ∷ ms) now (disk ∷ disks) valid =
    elim (track s p.node m.msg_id (frame_of p m) now disk) [
      | none ↦ none
      | some (s', false) ↦ flush_buffered p (note_send_failed s' m.msg_id) ms now disks valid
      | some (s', true) ↦
          let sent = post_frame s' p.node (frame_of p m) valid in
          flush_buffered p (if valid then sent else note_send_failed s' m.msg_id) ms now disks valid
    ]

unfoldable pub connect_and_flush :
    RemoteProxy → Sender → ℕ → List Disk → Bool → RemoteProxy × Option Sender
connect_and_flush p s now disks valid =
    (record p { connected = valid; buffered = [] }, flush_buffered p s p.buffered now disks valid)

unfoldable pub drop_connection : RemoteProxy → RemoteProxy
drop_connection p = record p { connected = false }

-- What happens to a node that sends.
pub data Event : Type 0 where
  -- A message over a proxy, and a connection that comes for one.
  delivers : RemoteProxy → BufferedMessage → ℕ → Disk → Event
  connects : RemoteProxy → ℕ → List Disk → Bool → Event
  acked : ℕ → Disk → Event
  link_dead : ℕ → Event
  reconnected : ℕ → ℕ → Bool → Event
  timeout : ℕ → ℕ → (ℕ → Bool) → Event

unfoldable pub step : Sender → Event → Option Sender
step s (delivers p m now disk) = try_deliver p s m now disk >>= (λ x. some x.1)
step s (connects p now disks valid) = (connect_and_flush p s now disks valid).1
step s (acked id disk) = note_ack s id disk
step s (link_dead node) = some (on_link_dead s node)
step s (reconnected node now valid) = some (resend_unacked s node now valid)
step s (timeout limit now valid) = some (ack_timeout s limit now valid)

unfoldable pub run : Sender → List Event → Option Sender
run s [] = some s
run s (e ∷ es) = step s e >>= (λ t. run t es)
