-- ===== src/ReceiverLog.antt =====
-- include/ultranet/actor/dist/receiver_log.h: the log a receiver keeps of the messages that it took
-- and of those it has handled, in one file per part of the code and one per group of properties.
pub mod Index
pub mod State
pub mod Flush
pub mod Open
pub mod Persist
pub mod Durable
pub mod Steps
pub mod Run
pub mod Restart
pub mod Replay
pub mod Acks
pub mod Failure
pub mod Due
pub mod Trace
mod Tests
