-- ===== src/WebSocket.antt =====
-- include/ultranet/net/websocket.hpp: the frame codec. A frame's payload is a list of bytes, and a
-- pointer into the received data is the list of the bytes from it to the end.
pub mod Header
pub mod RoundTrip
pub mod Inline
mod Tests
use Prim.Native.Nat.{bit_and, bit_or, bit_xor}
use ultra_net.Prelude.{
  ℕ, zero, suc, ◌+◌, ◌-◌, ◌*◌, ◌/◌, ◌%◌, ◌^◌, Bool, true, false, not, List, [], ◌∷◌, ◌++◌, Option,
  none, some, ltb, leb, ◌==◌, if◌then◌else◌, length, take, Bytes, ◌&&◌, ◌>>=◌, u8, drop, get_or,
}
use ultra_net.Prelude.Endian.{be_bytes, take_be}

-- `enum class OpCode : uint8_t`. The decoder casts any four bits to it, so it is a number.
abbrev pub OpCode : Type 0
OpCode = ℕ

abbrev pub op_text : OpCode
op_text = 0x1

abbrev pub op_binary : OpCode
op_binary = 0x2

abbrev pub op_close : OpCode
op_close = 0x8

abbrev pub op_ping : OpCode
op_ping = 0x9

abbrev pub op_pong : OpCode
op_pong = 0xA

pub record WebSocketFrame : Type 0 where
  pub fin : Bool
  pub opcode : OpCode
  pub mask : Bool
  pub masking_key : ℕ
  pub payload : Bytes

abbrev pub blank_frame : WebSocketFrame
blank_frame = record { fin = true; opcode = op_text; mask = false; masking_key = 0; payload = [] }

pub text : Bytes → Bool → WebSocketFrame
text s fin = record blank_frame { fin = fin; opcode = op_text; payload = s }

pub binary : Bytes → Bool → WebSocketFrame
binary s fin = record blank_frame { fin = fin; opcode = op_binary; payload = s }

pub close : ℕ → Bytes → WebSocketFrame
close code reason = record blank_frame {
  opcode = op_close;
  payload = u8 (code / 2 ^ 8) ∷ bit_and code 0xff ∷ reason;
}

pub ping : Bytes → WebSocketFrame
ping s = record blank_frame { opcode = op_ping; payload = s }

pub pong : Bytes → WebSocketFrame
pong s = record blank_frame { opcode = op_pong; payload = s }

-- The bytes of the extended length.
abbrev pub extended_size : ℕ → ℕ
extended_size n = if leb 126 n && leb n 65535 then 2 else if ltb 65535 n then 8 else 0

abbrev pub mask_size : Bool → ℕ
mask_size apply_mask = if apply_mask then 4 else 0

pub encoded_size : ℕ → Bool → ℕ
encoded_size n apply_mask = 2 + n + extended_size n + mask_size apply_mask

-- `(mk >> (8 * (3 - (i % 4)))) & 0xFF`.
abbrev pub key_byte : ℕ → ℕ → ℕ
key_byte mk i = mk / 2 ^ (8 * (3 - i % 4)) % 256

-- The loop over the payload from index i on.
pub apply_key : ℕ → ℕ → Bytes → Bytes
apply_key mk i [] = []
apply_key mk i (c ∷ s) = bit_xor c (key_byte mk i) ∷ apply_key mk (i + 1) s

pub length_field : Bool → ℕ → Bytes
length_field apply_mask n =
    let b1 = if apply_mask then 0x80 else 0 in
    if ltb n 126
    then bit_or b1 (u8 n) ∷ []
    else if leb n 65535
    then bit_or b1 126 ∷ be_bytes 2 n
    else bit_or b1 127 ∷ be_bytes 8 n

-- The key that is used: `random` is what the random device gives where the frame has no key.
abbrev pub key_of : WebSocketFrame → ℕ → ℕ
key_of f random = if f.masking_key == 0 then random else f.masking_key

pub frame_bytes : WebSocketFrame → Bool → ℕ → Bytes
frame_bytes f apply_mask random =
    bit_or (if f.fin then 0x80 else 0) (u8 f.opcode)
    ∷ (length_field apply_mask (length f.payload)
        ++ (if apply_mask
            then be_bytes 4 (key_of f random) ++ apply_key (key_of f random) 0 f.payload
            else f.payload))

-- The bytes that are written; none, with 0 returned, if the buffer is too small.
pub encode_into : WebSocketFrame → ℕ → Bool → ℕ → Bytes
encode_into f cap apply_mask random =
    if ltb cap (encoded_size (length f.payload) apply_mask)
    then []
    else frame_bytes f apply_mask random

pub encode : WebSocketFrame → Bool → ℕ → Bytes
encode f apply_mask random =
    encode_into f (encoded_size (length f.payload) apply_mask) apply_mask random

-- The payload length, the position behind it and the bytes from there on, from the seven-bit length.
-- `parse_inline_frame` writes out again what `decode` has.
pub read_length : ℕ → Bytes → Option (ℕ × ℕ × Bytes)
read_length n s =
    if n == 126
    then (do (m, r) ← take_be 2 s 0; some (m, 4, r))
    else if n == 127
    then (do (m, r) ← take_be 8 s 0; some (m, 10, r))
    else some (n, 2, s)

-- The masking key, or 0, with the position behind it and the bytes from there on.
pub read_key : Bool → ℕ → Bytes → Option (ℕ × ℕ × Bytes)
read_key false pos s = some (0, pos, s)
read_key true pos s = do (k, r) ← take_be 4 s 0; some (k, pos + 4, r)

-- What `decode` comes to. It throws std::length_error where it assigns a payload longer than any
-- string.
pub data Decoded : Type 0 where
  need_more throws : Decoded
  decoded : WebSocketFrame → ℕ → Decoded

-- The end of `decode`: `len < pos + plen` is tested on 64-bit numbers, whose sum wraps.
pub read_payload : ℕ → WebSocketFrame → ℕ → ℕ → Bytes → Decoded
read_payload len f plen pos s =
    if ltb len ((pos + plen) % 2 ^ 64)
    then need_more
    else if ltb (length s) plen
    then throws
    else (let payload = take plen s in
        decoded
          (record f { payload = if f.mask then apply_key f.masking_key 0 payload else payload })
          ((pos + plen) % 2 ^ 64))

pub decode : Bytes → Decoded
decode [] = need_more
decode (b ∷ []) = need_more
decode (b0 ∷ b1 ∷ s) =
    let fin = not (bit_and b0 0x80 == 0) in
    let mask = not (bit_and b1 0x80 == 0) in
    elim (read_length (bit_and b1 0x7f) s) [
      | none ↦ need_more
      | some (plen, pos, r) ↦ elim (read_key mask pos r) [
        | none ↦ need_more
        | some (key, pos', r') ↦
            read_payload (2 + length s)
              (record {
                fin = fin;
                opcode = bit_and b0 0x0f;
                mask = mask;
                masking_key = key;
                payload = [];
              })
              plen pos' r'
      ]
    ]

-- `payload_ptr` is the offset of the payload; `none` is nullptr.
pub record InlineFrameInfo : Type 0 where
  pub opcode : OpCode
  pub fin : Bool
  pub masked : Bool
  pub mask_key : ℕ
  pub payload_ptr : Option ℕ
  pub payload_len : ℕ
  pub header_len : ℕ
  pub total_consumed : ℕ

abbrev pub blank_info : InlineFrameInfo
blank_info = record {
  opcode = op_text;
  fin = true;
  masked = false;
  mask_key = 0;
  payload_ptr = none;
  payload_len = 0;
  header_len = 0;
  total_consumed = 0;
}

pub parse_inline_frame : Bytes → InlineFrameInfo
parse_inline_frame [] = blank_info
parse_inline_frame (b ∷ []) = blank_info
parse_inline_frame (b0 ∷ b1 ∷ s) =
    let mask = not (bit_and b1 0x80 == 0) in
    let info = record blank_info {
      fin = not (bit_and b0 0x80 == 0);
      opcode = bit_and b0 0x0f;
      masked = mask;
    } in
    elim (read_length (bit_and b1 0x7f) s) [
      | none ↦ info
      | some (plen, pos, r) ↦ elim (read_key mask pos r) [
        | none ↦ info
        | some (key, pos', r') ↦ record info {
          mask_key = key;
          header_len = pos';
          payload_len = plen;
          total_consumed = (pos' + plen) % 2 ^ 64;
          payload_ptr = if ltb (2 + length s) ((pos' + plen) % 2 ^ 64) then none else some pos';
        }
      ]
    ]
