-- ===== src/Wire/RoundTrip.antt =====
-- Wire.antt: what is packed is unpacked, and what the unpackers refuse.
use ultra_net.Prelude.{
  ℕ, ◌^◌, ◌<◌, ◌≡◌, refl, ap, ◌∙◌, ◌∷◌, ◌++◌, some, none, arith, ltb, ◌==◌, length, length-append,
  take-append_self, drop-append_self, if◌then◌else◌, Bytes, append_assoc, take, u32, Option,
}
use ultra_net.Prelude.Endian.{be_bytes, take_be-be_bytes}
use ultra_net.Uri.{ActorUri, to_string, NoSlash, parse_uri_from_wire-to_string}
use ultra_net.Wire.{
  read_be, read_u8, read_u32, read_u64, write_u32, write_u64, read_string, write_string,
  read_payload, Routed, routed, actor_message, actor_location, reply, ack, pack_routed,
  unpack_routed, pack_reply, unpack_reply, pack_ack, unpack_ack, pack_actor_message,
  unpack_actor_message, pack_actor_location, unpack_actor_location,
}

read_be-be_bytes : (k v : ℕ) (s : Bytes) → v < 256 ^ k → read_be k (be_bytes k v ++ s) ≡ (v, s)
read_be-be_bytes k v s h = ground (arith, take_be-be_bytes k v s h)

read_u8-cons : (b : ℕ) (s : Bytes) → read_u8 (b ∷ s) ≡ (b, s)
unfolding read_u8
read_u8-cons b s = ground arith

read_u32_back : (v : ℕ) (s : Bytes) → v < 2 ^ 32 → read_u32 (write_u32 v ++ s) ≡ (v, s)
unfolding read_u32 write_u32
read_u32_back v s h = read_be-be_bytes 4 v s h

pub read_u64_back : (v : ℕ) (s : Bytes) → v < 2 ^ 64 → read_u64 (write_u64 v ++ s) ≡ (v, s)
unfolding read_u64 write_u64
read_u64_back v s h = read_be-be_bytes 8 v s h

read_string_back : (s t : Bytes) → length s < 2 ^ 32 → read_string (write_string s ++ t) ≡ (s, t)
unfolding read_string write_string
read_string_back s t h = rw append_assoc (
    ground (
      arith,
      read_u32_back (u32 (length s)) (s ++ t) (omega arith),
      take-append_self s t,
      drop-append_self s t,
      length-append s t,
    ))

-- The payload's length is checked against the bytes that are there.
pub read_payload-write_u32 :
    (n : ℕ) (s : Bytes)
    → n < 2 ^ 32
    → read_payload (write_u32 n ++ s)
      ≡ (if n == 0 then none else if ltb (length s) n then none else some (take n s))
unfolding read_payload
read_payload-write_u32 n s h = rw (read_u32_back n s h) refl

-- The fields fit their types, and the URI can be read back.
pub record IsSendable (m : Routed) : Type 0 where
  pub flags : m.flags < 256
  pub msg_id : m.msg_id < 2 ^ 64
  pub sender : m.sender_node_id < 2 ^ 64
  pub msg_hash : m.msg_hash < 2 ^ 64
  pub node : NoSlash m.uri.node
  pub type : NoSlash m.uri.type
  pub uri_size : length (to_string m.uri) < 2 ^ 32
  pub payload_size : length m.payload < 2 ^ 32

-- A frame up to its URI, and what comes behind.
abbrev pub front : Routed → Bytes → Bytes
front m s =
    routed
    ∷ (m.flags
        ∷ (write_u64 m.msg_id
            ++ (write_u64 m.sender_node_id ++ (write_string (to_string m.uri) ++ s))))

-- What the unpacker makes of the bytes behind the URI.
unfoldable pub unpacked : Routed → ℕ → Option Bytes → Option Routed
unpacked m h none = none
unpacked m h (some p) = some (record m { msg_hash = h; payload = p })

pub unpack_routed-front :
    (m : Routed) (s : Bytes)
    → IsSendable m
    → unpack_routed (front m s) ≡ unpacked m (read_u64 s).0 (read_payload (read_u64 s).1)
unfolding unpack_routed unpacked
unpack_routed-front m s v = ground (
  arith,
  read_u8-cons routed (
      m.flags
      ∷ (write_u64 m.msg_id
          ++ (write_u64 m.sender_node_id ++ (write_string (to_string m.uri) ++ s)))),
  read_u8-cons m.flags
      (write_u64 m.msg_id ++ (write_u64 m.sender_node_id ++ (write_string (to_string m.uri) ++ s))),
  read_u64_back m.msg_id (write_u64 m.sender_node_id ++ (write_string (to_string m.uri) ++ s))
      v.msg_id,
  read_u64_back m.sender_node_id (write_string (to_string m.uri) ++ s) v.sender,
  read_string_back (to_string m.uri) s v.uri_size,
  (parse_uri_from_wire-to_string m.uri).1 (v.node, v.type),
)

pack_routed-front :
    (m : Routed) (t : Bytes)
    → pack_routed m ++ t
      ≡ front m (write_u64 m.msg_hash ++ (write_u32 (u32 (length m.payload)) ++ (m.payload ++ t)))
unfolding pack_routed
pack_routed-front m t = simp append_assoc

-- A routed message whose fields fit their types, and whose URI has no slash in its node or its type,
-- is unpacked unchanged from its frame where it has a payload, also when more bytes stand behind the
-- frame; where its payload is empty, the frame is refused.
pub unpack_routed-pack_routed :
    (m : Routed) (t : Bytes)
    → IsSendable m
    → unpack_routed (pack_routed m ++ t) ≡ (if length m.payload == 0 then none else some m)
unfolding unpacked
unpack_routed-pack_routed m t v =
    let n = length m.payload in
    let tail = write_u32 (u32 n) ++ (m.payload ++ t) in
    ap unpack_routed (pack_routed-front m t)
    ∙ unpack_routed-front m (write_u64 m.msg_hash ++ tail) v
    ∙ ground (
      arith,
      read_u64_back m.msg_hash tail v.msg_hash,
      read_payload-write_u32 (u32 n) (m.payload ++ t) (omega arith),
      take-append_self m.payload t,
      length-append m.payload t,
    )

-- A reply whose id fits 64 bits, and the length of whose payload fits 32, is unpacked unchanged where
-- it has a payload, whatever stands behind it; an empty one is refused.
pub unpack_reply-pack_reply :
    (id : ℕ) (p t : Bytes)
    → id < 2 ^ 64
    → length p < 2 ^ 32
    → unpack_reply (pack_reply id p ++ t) ≡ (if length p == 0 then none else some (id, p))
unfolding unpack_reply pack_reply
unpack_reply-pack_reply id p t fits size =
    let n = u32 (length p) in
    let front : pack_reply id p ++ t ≡ reply ∷ (write_u64 id ++ (write_u32 n ++ (p ++ t))) =
      simp append_assoc in
    ap unpack_reply front
    ∙ (ground (
      arith,
      read_u8-cons reply (write_u64 id ++ (write_u32 n ++ (p ++ t))),
      read_u64_back id (write_u32 n ++ (p ++ t)) fits,
      read_payload-write_u32 n (p ++ t) (omega arith),
      take-append_self p t,
      length-append p t,
    ))

length-write_u64 : (v : ℕ) → length (write_u64 v) ≡ 8
unfolding write_u64
length-write_u64 v = refl

-- An acknowledgement of a 64-bit message id is unpacked to that id, whatever stands behind it.
pub unpack_ack-pack_ack :
    (id : ℕ) (t : Bytes) → id < 2 ^ 64 → unpack_ack (pack_ack id ++ t) ≡ some id
unfolding unpack_ack pack_ack
unpack_ack-pack_ack id t fits = ground (
  arith,
  read_u8-cons ack (write_u64 id ++ t),
  read_u64_back id t fits,
  length-append (write_u64 id) t,
  length-write_u64 id,
)

-- A message between actors whose fields fit their types, and whose URI has no slash in its node or
-- its type, is unpacked unchanged where it has a payload, whatever stands behind it; an empty one is
-- refused.
pub unpack_actor_message-pack_actor_message :
    (u : ActorUri) (h : ℕ) (p t : Bytes)
    → NoSlash u.node
    → NoSlash u.type
    → length (to_string u) < 2 ^ 32
    → h < 2 ^ 64
    → length p < 2 ^ 32
    → unpack_actor_message (pack_actor_message u h p ++ t)
      ≡ (if length p == 0 then none else some (record { uri = u; msg_hash = h; payload = p }))
unfolding unpack_actor_message pack_actor_message
unpack_actor_message-pack_actor_message u h p t node type uri_size fits size =
    let n = u32 (length p) in
    let tail = write_u32 n ++ (p ++ t) in
    let front : pack_actor_message u h p ++ t
        ≡ actor_message ∷ (write_string (to_string u) ++ (write_u64 h ++ tail)) =
      simp append_assoc in
    ap unpack_actor_message front
    ∙ (ground (
      arith,
      read_u8-cons actor_message (write_string (to_string u) ++ (write_u64 h ++ tail)),
      read_string_back (to_string u) (write_u64 h ++ tail) uri_size,
      (parse_uri_from_wire-to_string u).1 (node, type),
      read_u64_back h tail fits,
      read_payload-write_u32 n (p ++ t) (omega arith),
      take-append_self p t,
      length-append p t,
    ))

-- The announcement of an actor whose URI has no slash in its node or its type, and fits its length
-- field, is unpacked to that URI and to its 32-bit hop count, whatever stands behind it.
pub unpack_actor_location-pack_actor_location :
    (u : ActorUri) (ttl : ℕ) (t : Bytes)
    → NoSlash u.node
    → NoSlash u.type
    → length (to_string u) < 2 ^ 32
    → ttl < 2 ^ 32
    → unpack_actor_location (pack_actor_location u ttl ++ t) ≡ some (u, ttl)
unfolding unpack_actor_location pack_actor_location
unpack_actor_location-pack_actor_location u ttl t node type uri_size fits = simp append_assoc (
    ground (
      arith,
      read_u8-cons actor_location (write_string (to_string u) ++ (write_u32 ttl ++ t)),
      read_string_back (to_string u) (write_u32 ttl ++ t) uri_size,
      (parse_uri_from_wire-to_string u).1 (node, type),
      read_u32_back ttl t fits,
    ))
