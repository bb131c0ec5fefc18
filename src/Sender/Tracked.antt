-- ===== src/Sender/Tracked.antt =====
-- Sender.antt: a message is in the table only if the log has taken it.
use ultra_net.Prelude.{ℕ, ◌≡◌, true, List, ◌==◌, Bytes, All}
use ultra_net.RemoteLog.{RemoteLog}
use ultra_net.Sender.{Sender}
use ultra_net.Sender.Events.{
  BufferedMessage, RemoteProxy, frame_of, Event, delivers, connects, acked, link_dead, reconnected,
  timeout,
}
use ultra_net.Sender.Logged.{IsLogged}

module _ (the_id : ℕ) (the_frame : Bytes) (old : List ℕ) where
  abbrev Kept : Sender → Type 0
  Kept s = IsLogged the_id the_frame old s

  abbrev pub Own : RemoteProxy → BufferedMessage → Type 0
  Own p m = (the_id == m.msg_id) ≡ true → frame_of p m ≡ the_frame

  -- A message that comes with this id is this message again.
  unfoldable pub Only : Event → Type 0
  Only (delivers p m now disk) = Own p m
  Only (connects p now disks ok) = All (Own p) p.buffered
  Only (acked k disk) = Unit
  Only (link_dead n) = Unit
  Only (reconnected n now ok) = Unit
  Only (timeout limit now ok) = Unit
