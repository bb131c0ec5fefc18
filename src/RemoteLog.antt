-- ===== src/RemoteLog.antt =====
-- include/ultranet/actor/dist/remote_log.h: the log a sender keeps of the frames that the receiver
-- has not acknowledged. What the calls of `write` return is an argument of the operations, the
-- number of bytes or none for an error, and so is whether `fsync` succeeds.
pub mod Append
pub mod Recovery
pub mod Loss
pub mod Open
mod Tests
use ultra_net.Prelude.{
  ℕ, zero, suc, ◌+◌, ◌%◌, ◌^◌, Bool, true, false, List, [], ◌∷◌, ◌++◌, map, Option, none, some, ltb,
  ◌==◌, if◌then◌else◌, length, take, drop, Bytes, ◌||◌, ◌&&◌, not, u32,
}
use ultra_net.Log.{
  Frame, frame_bytes, Scan, undefined, scanned, scan, has_prefix, read_le_u32, read_le_u64,
  write_le_u64, crc32_iso_hdlc,
}

abbrev pub magic : Bytes
magic = 0x55 ∷ 0x4C ∷ 0x52 ∷ 0x31 ∷ []

unfoldable pub msg_id : Frame → ℕ
msg_id f = read_le_u64 f.ids

unfoldable pub is_data : Frame → Bool
is_data f = f.type == 1

unfoldable pub is_ack : Frame → Bool
is_ack f = f.type == 2

-- `unordered_set::find`.
unfoldable pub mem : ℕ → List ℕ → Bool
mem i [] = false
mem i (j ∷ js) = (i == j) || mem i js

unfoldable pub acked_ids : List Frame → List ℕ
acked_ids [] = []
acked_ids (f ∷ fs) = let rest = acked_ids fs in if is_ack f then msg_id f ∷ rest else rest

unfoldable pub data_ids : List Frame → List ℕ
data_ids [] = []
data_ids (f ∷ fs) = let rest = data_ids fs in if is_data f then msg_id f ∷ rest else rest

unfoldable pub unacked : List ℕ → List Frame → List Bytes
unacked acked [] = []
unacked acked (f ∷ fs) =
    let rest = unacked acked fs in
    if is_data f && not (mem (msg_id f) acked) then f.body ∷ rest else rest

pub record RemoteLogScan : Type 0 where
  pub complete_data : ℕ
  pub torn : ℕ
  pub unacked_frames : List Bytes

unfoldable pub scan_result : List Frame → Bool → RemoteLogScan
scan_result fs bad = record {
  complete_data = length (data_ids fs);
  torn = if bad then 1 else 0;
  unacked_frames = unacked (acked_ids fs) fs;
}

-- None is the file there is not; the result is none where the code reads out of bounds.
unfoldable pub scan_remote_log : Option Bytes → Option RemoteLogScan
scan_remote_log none = some (record { complete_data = 0; torn = 0; unacked_frames = [] })
scan_remote_log (some bytes) = elim (scan magic 8 bytes) [
  | undefined ↦ none
  | scanned fs bad ↦ some (scan_result fs bad)
]

-- The loop of the constructor. It compares sizes in 64 bits, but steps on by a sum of 32 bits. None
-- is a loop that does not end.
pub data Round : Type 0 where
  ends : Round
  goes_on : ℕ → ℕ → Bytes → Round

unfoldable pub open_body : ℕ → Bytes → ℕ → Bytes → Bytes → Bytes → Round
open_body type ids n c r s =
    if ltb (length s) (21 + n) then ends else elim (read_le_u32 (drop n r)) [
      | none ↦ ends
      | some (crc, _) ↦
          if crc32_iso_hdlc (take (u32 (13 + n)) c) == crc
          then goes_on type (read_le_u64 ids) (drop (u32 (21 + n)) s)
          else ends
    ]

unfoldable pub open_fields : Bytes → Bytes → Round
open_fields [] s = ends
open_fields (type ∷ r) s = elim (read_le_u32 (drop 8 r)) [
  | none ↦ ends
  | some (n, r') ↦ open_body type (take 8 r) n (type ∷ r) r' s
]

unfoldable pub open_round : Bytes → Round
open_round s =
    if ltb (length s) 21
    then ends
    else if has_prefix magic s
    then open_fields (drop 4 s) s
    else ends

unfoldable pub open_loop : ℕ → Bytes → Option (List ℕ)
open_loop zero s = none
open_loop (suc f) s = elim (open_round s) [
  | ends ↦ some []
  | goes_on type id r ↦ elim (open_loop f r) [
    | none ↦ none
    | some ids ↦ some (if type == 1 then id ∷ ids else ids)
  ]
]

pub record RemoteLog : Type 0 where
  pub fd_open : Bool
  pub file : Bytes
  pub ids : List ℕ

-- The constructor: the file, and whether `open` gives a descriptor.
unfoldable pub remote_log : Bytes → Bool → Option RemoteLog
remote_log bytes opened = elim (open_loop (suc (length bytes)) bytes) [
  | none ↦ none
  | some ids ↦ some (record { fd_open = opened; file = bytes; ids = ids })
]

-- What a call gives: a Boolean, or nothing as yet, where it waits for `write`.
pub data Answer : Type 0 where
  waits : Answer
  answers : Bool → Answer

-- A write that went through is followed by `fsync`.
unfoldable pub fsync : Answer → Bool → Answer
fsync waits synced = waits
fsync (answers ok) synced = answers (ok && synced)

unfoldable pub write_loop : List (Option ℕ) → Bytes → Bytes → Bytes × Answer
write_loop os file [] = (file, answers true)
write_loop [] file (b ∷ r) = (file, waits)
write_loop (none ∷ os) file (b ∷ r) = (file, answers false)
write_loop (some n ∷ os) file (b ∷ r) = write_loop os (file ++ take n (b ∷ r)) (drop n (b ∷ r))

unfoldable pub record_of : ℕ → ℕ → Bytes → Frame
record_of type id body = record {
  type = type;
  ids = write_le_u64 id;
  body = take (u32 (length body)) body;
}

unfoldable pub append_record_locked :
    RemoteLog → Frame → List (Option ℕ) → Bool → RemoteLog × Answer
append_record_locked l f os synced =
    let (file, a) = write_loop os l.file (frame_bytes magic f) in
    if l.fd_open
    then (record { fd_open = true; file = file; ids = l.ids }, fsync a synced)
    else (l, answers false)

-- `append_data` behind the record, by what the record's append gave.
unfoldable pub insert_id : ℕ → RemoteLog → Answer → RemoteLog
insert_id id l waits = l
insert_id id l (answers false) = l
insert_id id l (answers true) = record { fd_open = l.fd_open; file = l.file; ids = id ∷ l.ids }

unfoldable pub append_data : RemoteLog → ℕ → Bytes → List (Option ℕ) → Bool → RemoteLog × Answer
append_data l id body os synced =
    let (l', a) = append_record_locked l (record_of 1 id body) os synced in
    if mem id l.ids then (l, answers true) else (insert_id id l' a, a)

unfoldable pub append_ack : RemoteLog → ℕ → List (Option ℕ) → Bool → RemoteLog × Answer
append_ack l id os synced = append_record_locked l (record_of 2 id []) os synced
