-- ===== src/ConnectionPool.antt =====
-- include/ultranet/net/connection_pool.hpp: callers that borrow connections. A call of `acquire` that
-- waits for `connect`, or for the channel of idle connections, lets others run meanwhile; each event is
-- what a call does up to such a wait or from it on. The sockets are counted, not named: those idle in
-- the channel, those lent to callers, and the attempts to connect. Of the channel there are also the
-- callers that wait, and the idle connections reserved for callers that were woken and are to run. A caller gives back or invalidates
-- only a connection that it was lent.
pub mod Bounds
pub mod Leak
mod Tests
use ultra_net.Prelude.{
  ℕ, zero, suc, ◌+◌, ◌-◌, ◌%◌, ◌^◌, ◌≡◌, Bool, true, false, Option, none, some, ltb, if◌then◌else◌,
  not, ◌&&◌, ◌||◌, leb, inc64,
}

-- `fetch_sub(1)` on a counter of 64 bits.
unfoldable pub dec64 : ℕ → ℕ
dec64 n = (n + (2 ^ 64 - 1)) % 2 ^ 64

pub record ConnectionPoolConfig : Type 0 where
  pub min_connections : ℕ
  pub max_connections : ℕ

-- The capacity of `m_idle`.
abbrev pub capacity : ℕ
capacity = 1024

pub record ConnectionPool : Type 0 where
  pub shutdown : Bool
  pub acquired : ℕ
  pub released : ℕ
  pub evicted : ℕ
  pub failed_creates : ℕ
  pub total_connections : ℕ
  pub idle : ℕ
  pub lent : ℕ
  pub connecting : ℕ
  pub warming : ℕ
  pub waiting : ℕ
  pub reserved : ℕ

unfoldable pub new : ConnectionPool
new = record {
  shutdown = false;
  acquired = 0;
  released = 0;
  evicted = 0;
  failed_creates = 0;
  total_connections = 0;
  idle = 0;
  lent = 0;
  connecting = 0;
  warming = 0;
  waiting = 0;
  reserved = 0;
}

-- `Stats::active` and `Stats::idle` of a snapshot.
unfoldable pub active : ConnectionPool → ℕ
active s = if ltb s.released s.acquired then s.acquired - s.released else 0

unfoldable pub idle_of : ConnectionPool → ℕ
idle_of s = if ltb (active s) s.total_connections then s.total_connections - active s else 0

-- `do_write_nolock` and `wake_one_reader_nolock` of the channel: an idle connection more, which is
-- reserved for the first caller that waits, if one does.
unfoldable pub add_idle : ConnectionPool → ConnectionPool
add_idle s =
    if ltb 0 s.waiting
    then record s { idle = s.idle + 1; waiting = s.waiting - 1; reserved = s.reserved + 1 }
    else record s { idle = s.idle + 1 }

-- `release` of a valid socket.
unfoldable pub put_back : ConnectionPool → ConnectionPool
put_back s =
    if s.shutdown || leb capacity s.idle
    then record s { released = inc64 s.released; total_connections = dec64 s.total_connections }
    else add_idle (record s { released = inc64 s.released })

pub data Event : Type 0 where
  -- The front of `acquire`: an idle connection, a place for a new one, or a wait.
  acquire : Event
  -- What `acquire` does behind `connect`, and behind the read of the channel.
  connected connect_failed woken : Event
  -- A valid socket, and one that is not.
  release release_invalid invalidate : Event
  -- A round of `pre_warm`, and what it does behind `connect`.
  warm warmed warm_failed : Event
  -- The destructor.
  close : Event

-- None where the event cannot happen in the state, or the call throws.
unfoldable pub step : ConnectionPoolConfig → ConnectionPool → Event → Option ConnectionPool
step c s acquire =
    if s.shutdown
    then none
    else if ltb s.reserved s.idle
    then some (record s { idle = s.idle - 1; lent = s.lent + 1; acquired = inc64 s.acquired })
    else if ltb s.total_connections c.max_connections
    then some
        (record s { total_connections = inc64 s.total_connections; connecting = s.connecting + 1 })
    else some (record s { waiting = s.waiting + 1 })
step c s connected =
    if ltb 0 s.connecting
    then some
        (record s { connecting = s.connecting - 1; lent = s.lent + 1; acquired = inc64 s.acquired })
    else none
step c s connect_failed =
    if ltb 0 s.connecting
    then some (record s {
      connecting = s.connecting - 1;
      total_connections = dec64 s.total_connections;
      failed_creates = inc64 s.failed_creates;
    })
    else none
step c s woken =
    if ltb 0 s.reserved
    then (if ltb 0 s.idle
        then some (record s {
          reserved = s.reserved - 1;
          idle = s.idle - 1;
          lent = s.lent + 1;
          acquired = inc64 s.acquired;
        })
        else if s.shutdown
        then some (record s { reserved = s.reserved - 1 })
        else none)
    else none
step c s release = if ltb 0 s.lent then some (put_back (record s { lent = s.lent - 1 })) else none
step c s release_invalid = if ltb 0 s.lent then some (record s { lent = s.lent - 1 }) else none
step c s invalidate =
    if ltb 0 s.lent
    then some (record s {
      lent = s.lent - 1;
      evicted = inc64 s.evicted;
      total_connections = dec64 s.total_connections;
    })
    else none
step c s warm =
    if ltb s.total_connections c.max_connections
    then some (record s { total_connections = inc64 s.total_connections; warming = s.warming + 1 })
    else none
step c s warmed =
    if ltb 0 s.warming then some (put_back (record s { warming = s.warming - 1 })) else none
step c s warm_failed =
    if ltb 0 s.warming
    then some (record s {
      warming = s.warming - 1;
      total_connections = dec64 s.total_connections;
      failed_creates = inc64 s.failed_creates;
    })
    else none
step c s close = some (record s { shutdown = true; reserved = s.reserved + s.waiting; waiting = 0 })

-- The states that the pool comes to.
pub data Reach (c : ConnectionPoolConfig) : ConnectionPool → Type 0 where
  start : Reach c new
  next : {s t : ConnectionPool} (e : Event) → Reach c s → step c s e ≡ some t → Reach c t
