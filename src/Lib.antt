-- ===== src/Lib.antt =====
-- ultra_net: a model of parts of the ultranet networking library, with the theorems that make them
-- correct.
--
-- The library is a set of C++ headers: coroutines over io_uring, protocols over the sockets, and an actor
-- system that sends messages between nodes. The parts modelled are those that decide what bytes mean and
-- what state a component is in. The sockets, the clock and the file system are arguments: bytes that come
-- in, times, and what each call of `write` and `fsync` gives.
--
--   Breaker      include/ultranet/coroutine/circuit_breaker.hpp: `try_acquire`, `on_success`,
--                `on_failure`, `reset`, `snapshot`. A state is the atomics of the class, a call is one step.
--   Resp         app/redis-proxy/resp.hpp: `parse_request`, `encode_request`,
--                `detect_request_boundary`, `detect_response`, with the replies as trees to compare with.
--   WebSocket    include/ultranet/net/websocket.hpp: `WebSocketFrame` and `parse_inline_frame`.
--   Uri          include/ultranet/actor/core/actor_uri.h, and `parse_uri_from_wire` of serialization.h.
--   Wire         include/ultranet/actor/dist/serialization.h: the `serializer` and the envelopes. The
--                transport puts them on a connection, and the two logs keep them in files.
--   Log          the records that both logs write: magic number, type, ids, length, body, CRC-32.
--   RemoteLog    include/ultranet/actor/dist/remote_log.h: what a sender has sent and the receiver has not
--                acknowledged: `scan_remote_log`, the constructor, `append_data`, `append_ack`.
--   ReceiverLog  include/ultranet/actor/dist/receiver_log.h: what a receiver has taken and handled. Index
--                is `m_index`, State the calls under the lock, Flush `flush_ready`, `commit_batch`,
--                `rollback` and `write_full`, Open `scan_existing`. It reads the frames with Wire.
--   ReliableUdp  include/ultranet/net/reliable_udp.hpp: packets, `send` and `recv`.
--   ConnectionPool  include/ultranet/net/connection_pool.hpp: `acquire`, `release`, `invalidate` and
--                `pre_warm`, cut into events at their waits.
--   Cluster      include/ultranet/actor/net/cluster.h: the peers a node knows, `build_gossip` and
--                `apply_gossip`.
--   Channel      include/ultranet/coroutine/channel.hpp: the ring, the waiting readers and writers and their
--                reservations; Await holds the awaitables, Steps the coroutines that use a channel.
--   Delivery     include/ultranet/actor/system/actor_system.h, with `push_envelope` of
--                include/ultranet/actor/core/base_actor.h: a routed message from its frame to the end of
--                its handler. Delivery holds the table `m_dedup`, Push the way to a mailbox, Accept
--                `accept_logged_routed`, `dispatch_envelope` and `finish_remote_delivery`; all work on a
--                state of ReceiverLog, and Run puts them in sequence.
--   Sender       include/ultranet/actor/dist/remote_proxy.h, and `m_unacked` of actor_system.h: what a node
--                sends stays in a table until its acknowledgement. Events holds the proxy and puts the
--                calls in sequence, Restart starts a node on the log of its last run; the log is a state
--                of RemoteLog.
--   Prelude      what they share: Boolean tests, lists, decimal numbers, bytes of numbers in either order.
--
-- A byte is a natural number, a string or a vector of bytes a list of them, and sums that the code makes in
-- 32 or 64 bits are written with the remainder. Where the code reads out of bounds or overflows a signed
-- number the model has an outcome `undefined`, and a scan of a log that does not end comes to it too. The
-- timeout of a circuit breaker is taken to be below 2 ^ 63 nanoseconds, and the times of a node not to
-- overflow.
--
-- Fuel: `detect_response` takes one more than the length of the buffer, which is enough since each array
-- within an array takes bytes of it. The loops over a log take one more than the length of the file, since
-- each record takes bytes of it, in a file below 4 GiB; a larger one may make the source loop for ever.
-- Other loops recurse on their data.
--
-- Not modelled: threads that interleave inside one call, the sockets and io_uring, the connections
-- between nodes and their recovery, HTTP, DNS, and the applications besides the Redis protocol.
pub mod Prelude
pub mod Breaker
pub mod Resp
pub mod WebSocket
pub mod Uri
pub mod Wire
pub mod Log
pub mod RemoteLog
pub mod ReceiverLog
pub mod ReliableUdp
pub mod ConnectionPool
pub mod Cluster
pub mod Channel
pub mod Delivery
pub mod Sender
