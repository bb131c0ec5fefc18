-- ===== src/Log.antt =====
-- The records that include/ultranet/actor/dist/remote_log.h and receiver_log.h append to a file: a
-- magic number, a type, the ids, the length of the body, the body, and a CRC-32 of all but the magic
-- number. The two logs differ in the magic number and in how many bytes of ids there are, which are
-- parameters here.
pub mod Frames
pub mod Recovery
use Prim.Native.Nat.{bit_xor}
use ultra_net.Prelude.{
  ℕ, zero, suc, ◌+◌, ◌/◌, ◌%◌, ◌^◌, Bool, true, false, List, [], ◌∷◌, ◌++◌, Option, none, some, ltb,
  ◌==◌, if◌then◌else◌, length, take, drop, Bytes, ◌&&◌, u32,
}
use ultra_net.Prelude.Endian.{le_bytes, take_le}

-- The inner loop of `crc32_iso_hdlc`.
unfoldable pub crc_bits : ℕ → ℕ → ℕ
crc_bits zero crc = crc
crc_bits (suc n) crc = crc_bits n (if crc % 2 == 0 then crc / 2 else bit_xor (crc / 2) 0xedb88320)

unfoldable pub crc_bytes : ℕ → Bytes → ℕ
crc_bytes crc [] = crc
crc_bytes crc (b ∷ s) = crc_bytes (crc_bits 8 (bit_xor crc b)) s

unfoldable pub crc32_iso_hdlc : Bytes → ℕ
crc32_iso_hdlc s = bit_xor (crc_bytes 0xffffffff s) 0xffffffff

-- `memcpy` of a `uint32_t`, and back, on the little-endian machines the log is for.
unfoldable pub write_le_u32 : ℕ → Bytes
write_le_u32 v = le_bytes 4 v

unfoldable pub read_le_u32 : Bytes → Option (ℕ × Bytes)
read_le_u32 s = take_le 4 s

unfoldable pub write_le_u64 : ℕ → Bytes
write_le_u64 v = le_bytes 8 v

-- The number that the first eight bytes are.
unfoldable pub read_le_u64 : Bytes → ℕ
read_le_u64 s = elim (take_le 8 s) [ none ↦ 0 | some (v, _) ↦ v ]

pub record Frame : Type 0 where
  pub type : ℕ
  pub ids : Bytes
  pub body : Bytes

-- What the checksum covers.
unfoldable pub covered : Frame → Bytes
covered f = f.type ∷ (f.ids ++ (write_le_u32 (u32 (length f.body)) ++ f.body))

unfoldable pub frame_bytes : Bytes → Frame → Bytes
frame_bytes magic f = magic ++ (covered f ++ write_le_u32 (crc32_iso_hdlc (covered f)))

unfoldable pub log_bytes : Bytes → List Frame → Bytes
log_bytes magic [] = []
log_bytes magic (f ∷ fs) = frame_bytes magic f ++ log_bytes magic fs

-- One round of the scan. Sums such as `21u + body_len` are of 32 bits; where the true sum is larger
-- than the file the checksum reads out of bounds.
pub data Read : Type 0 where
  torn undefined : Read
  got : Frame → Bytes → Read

-- The same bytes in front.
unfoldable pub has_prefix : Bytes → Bytes → Bool
has_prefix [] s = true
has_prefix (m ∷ ms) [] = false
has_prefix (m ∷ ms) (b ∷ s) = (m == b) && has_prefix ms s

-- The body and the checksum, for a length field n; `c` is the record behind its magic number, `r`
-- the part of it behind the length field, and `s` the file from the record on.
unfoldable pub read_body : ℕ → ℕ → Bytes → ℕ → Bytes → Bytes → Bytes → Read
read_body k type ids n c r s =
    let need = u32 (13 + k + n) in
    if ltb (length s) need
    then torn
    else if ltb (length s) (13 + k + n)
    then undefined
    else elim (read_le_u32 (drop n r)) [
      | none ↦ undefined
      | some (crc, _) ↦
          if crc32_iso_hdlc (take (u32 (5 + k + n)) c) == crc
          then got (record { type = type; ids = ids; body = take n r }) (drop need s)
          else torn
    ]

unfoldable pub read_fields : ℕ → Bytes → Bytes → Read
read_fields k [] s = torn
read_fields k (type ∷ r) s = elim (read_le_u32 (drop k r)) [
  | none ↦ torn
  | some (n, r') ↦ read_body k type (take k r) n (type ∷ r) r' s
]

unfoldable pub read_frame : Bytes → ℕ → Bytes → Read
read_frame magic k s =
    if ltb (length s) (13 + k)
    then torn
    else if has_prefix magic s
    then read_fields k (drop 4 s) s
    else torn

-- The records up to the end or to the first that is not whole, and whether the scan met such a one.
pub data Scan : Type 0 where
  undefined : Scan
  scanned : List Frame → Bool → Scan

abbrev pub add_frame : Frame → Scan → Scan
add_frame f undefined = undefined
add_frame f (scanned fs bad) = scanned (f ∷ fs) bad

-- `while (off < bytes.size())`, with fuel: below 4 GiB a record takes a byte at least, so that one more
-- than the length of the file is enough. In a larger file the size of a record may come to 0 in 32 bits;
-- the loop then does not end, and is `undefined`.
unfoldable pub scan_loop : Bytes → ℕ → ℕ → Bytes → Scan
scan_loop magic k zero s = undefined
scan_loop magic k (suc f) [] = scanned [] false
scan_loop magic k (suc f) (b ∷ s) = elim (read_frame magic k (b ∷ s)) [
  | torn ↦ scanned [] true
  | undefined ↦ undefined
  | got x r ↦ add_frame x (scan_loop magic k f r)
]

unfoldable pub scan : Bytes → ℕ → Bytes → Scan
scan magic k s = scan_loop magic k (suc (length s)) s
