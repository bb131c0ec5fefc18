-- ===== src/Wire/Cut.antt =====
-- Wire.antt: frames that lack some of their bytes.
use ultra_net.Prelude.{
  ℕ, ◌/◌, ◌%◌, ◌^◌, ◌<◌, ◌≡◌, ◌≢◌, ap, ◌∙◌, [], ◌∷◌, ◌++◌, some, none, arith, length, length-append,
  length-pos, Bytes, take,
}
use ultra_net.Wire.RoundTrip.{
  IsSendable, front, unpacked, unpack_routed-front, read_u64_back, read_payload-write_u32,
}
use ultra_net.Wire.{read_u32, read_u64, write_u32, write_u64, read_payload, Routed, unpack_routed}

-- The frame of a message whose fields fit their types, and whose URI has no slash in its node or its
-- type, is refused where the end of its payload is missing.
pub unpack_routed_cut :
    (m : Routed) (p q : Bytes)
    → IsSendable m
    → m.payload ≡ p ++ q
    → q ≢ []
    → unpack_routed (front m (write_u64 m.msg_hash ++ (write_u32 (length m.payload) ++ p))) ≡ none
unfolding unpacked
unpack_routed_cut m p q v e h =
    let n = length m.payload in
    let tail = write_u32 n ++ p in
    unpack_routed-front m (write_u64 m.msg_hash ++ tail) v
    ∙ ground (
      arith,
      read_u64_back m.msg_hash tail v.msg_hash,
      read_payload-write_u32 n p (omega arith),
      ap length e,
      length-append p q,
      length-pos q h,
    )

-- Seven bytes do not hold a hash, so that its read gives 0 and stays where it is.
hash_cut :
    (h : ℕ)
    → h < 2 ^ 64
    → h / 2 ^ 32 ≡ 1
    → (read_u64 (take 7 (write_u64 h)) ≡ (0, take 7 (write_u64 h)))
      × (read_payload (take 7 (write_u64 h)) ≡ some (h / 2 ^ 24 % 256 ∷ []))
unfolding read_u64 write_u64 read_payload read_u32
hash_cut h small one = ground arith

-- A frame that is cut inside its hash can be taken for a whole one: for a message whose fields fit
-- their types, and whose URI has no slash in its node or its type, if the upper half of the hash is 1
-- and its last byte and all that follows are missing, the unpacker returns a message with the hash 0
-- and one byte of the hash as its payload.
pub unpack_routed_cut_in_hash :
    (m : Routed)
    → IsSendable m
    → m.msg_hash / 2 ^ 32 ≡ 1
    → unpack_routed (front m (take 7 (write_u64 m.msg_hash)))
      ≡ some (record m { msg_hash = 0; payload = m.msg_hash / 2 ^ 24 % 256 ∷ [] })
unfolding unpacked
unpack_routed_cut_in_hash m v one =
    unpack_routed-front m (take 7 (write_u64 m.msg_hash)) v
    ∙ ground (arith, hash_cut m.msg_hash v.msg_hash one)
