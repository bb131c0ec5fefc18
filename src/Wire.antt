-- ===== src/Wire.antt =====
-- include/ultranet/actor/dist/serialization.h: the serializer and the envelopes of the messages
-- between nodes. The serializer's read position is the list of the bytes from it to the end: a read
-- that does not fit gives 0 and leaves the position where it is.
pub mod RoundTrip
pub mod Cut
mod Tests
use ultra_net.Prelude.{
  ℕ, zero, suc, ◌+◌, Bool, true, false, List, [], ◌∷◌, ◌++◌, Option, none, some, ltb, ◌==◌,
  if◌then◌else◌, length, take, drop, Bytes, ◌||◌, u8, u32,
}
use ultra_net.Prelude.Endian.{be_bytes, take_be}
use ultra_net.Uri.{ActorUri, to_string, parse_uri_from_wire}

-- `enum class message_type`.
abbrev pub actor_message : ℕ
actor_message = 0x02

abbrev pub actor_location : ℕ
actor_location = 0x03

abbrev pub routed : ℕ
routed = 0x04

abbrev pub reply : ℕ
reply = 0x05

abbrev pub ack : ℕ
ack = 0x06

unfoldable pub write_u32 : ℕ → Bytes
write_u32 v = be_bytes 4 v

unfoldable pub write_u64 : ℕ → Bytes
write_u64 v = be_bytes 8 v

unfoldable pub write_string : Bytes → Bytes
write_string s = write_u32 (u32 (length s)) ++ s

-- `read_u8`, `read_u32` and `read_u64`: the value, and the bytes behind it.
abbrev pub read_be : ℕ → Bytes → ℕ × Bytes
read_be k s = elim (take_be k s 0) [ none ↦ (0, s) | some r ↦ r ]

unfoldable pub read_u8 : Bytes → ℕ × Bytes
read_u8 s = read_be 1 s

unfoldable pub read_u32 : Bytes → ℕ × Bytes
read_u32 s = read_be 4 s

unfoldable pub read_u64 : Bytes → ℕ × Bytes
read_u64 s = read_be 8 s

unfoldable pub read_string : Bytes → Bytes × Bytes
read_string s =
    let (n, r) = read_u32 s in if n == 0 || ltb (length r) n then ([], r) else (take n r, drop n r)

-- The end that the envelopes with a payload share: a length that is not 0, and so many bytes.
unfoldable pub read_payload : Bytes → Option Bytes
read_payload s =
    let (n, r) = read_u32 s in
    if n == 0 then none else if ltb (length r) n then none else some (take n r)

pub pack_actor_message : ActorUri → ℕ → Bytes → Bytes
pack_actor_message uri msg_hash payload =
    actor_message
    ∷ (write_string (to_string uri)
        ++ (write_u64 msg_hash ++ (write_u32 (u32 (length payload)) ++ payload)))

pub record ActorMessage : Type 0 where
  pub uri : ActorUri
  pub msg_hash : ℕ
  pub payload : Bytes

pub unpack_actor_message : Bytes → Option ActorMessage
unpack_actor_message s =
    let (t, s1) = read_u8 s in
    let (u, s2) = read_string s1 in
    let (h, s3) = read_u64 s2 in
    if t == actor_message
    then elim (read_payload s3) [
      | none ↦ none
      | some p ↦ some (record { uri = parse_uri_from_wire u; msg_hash = h; payload = p })
    ]
    else none

pub pack_actor_location : ActorUri → ℕ → Bytes
pack_actor_location uri ttl = actor_location ∷ (write_string (to_string uri) ++ write_u32 ttl)

pub unpack_actor_location : Bytes → Option (ActorUri × ℕ)
unpack_actor_location s =
    let (t, s1) = read_u8 s in
    let (u, s2) = read_string s1 in
    let (ttl, s3) = read_u32 s2 in
    if t == actor_location then some (parse_uri_from_wire u, ttl) else none

pub record Routed : Type 0 where
  pub uri : ActorUri
  pub flags : ℕ
  pub msg_id : ℕ
  pub sender_node_id : ℕ
  pub msg_hash : ℕ
  pub payload : Bytes

unfoldable pub pack_routed : Routed → Bytes
pack_routed m =
    routed
    ∷ (m.flags
        ∷ (write_u64 m.msg_id
            ++ (write_u64 m.sender_node_id
                ++ (write_string (to_string m.uri)
                    ++ (write_u64 m.msg_hash
                        ++ (write_u32 (u32 (length m.payload)) ++ m.payload))))))

unfoldable pub unpack_routed : Bytes → Option Routed
unpack_routed s =
    let (t, s1) = read_u8 s in
    let (flags, s2) = read_u8 s1 in
    let (id, s3) = read_u64 s2 in
    let (sender, s4) = read_u64 s3 in
    let (u, s5) = read_string s4 in
    let (h, s6) = read_u64 s5 in
    if t == routed
    then elim (read_payload s6) [
      | none ↦ none
      | some p ↦ some (record {
        uri = parse_uri_from_wire u;
        flags = flags;
        msg_id = id;
        sender_node_id = sender;
        msg_hash = h;
        payload = p;
      })
    ]
    else none

pub pack_reply : ℕ → Bytes → Bytes
pack_reply id payload = reply ∷ (write_u64 id ++ (write_u32 (u32 (length payload)) ++ payload))

pub unpack_reply : Bytes → Option (ℕ × Bytes)
unpack_reply s =
    let (t, s1) = read_u8 s in
    let (id, s2) = read_u64 s1 in
    if t == reply then elim (read_payload s2) [ none ↦ none | some p ↦ some (id, p) ] else none

pub pack_ack : ℕ → Bytes
pack_ack id = ack ∷ write_u64 id

pub unpack_ack : Bytes → Option ℕ
unpack_ack s =
    let (t, s1) = read_u8 s in
    if t == ack then (if ltb (length s1) 8 then none else some (read_u64 s1).0) else none
