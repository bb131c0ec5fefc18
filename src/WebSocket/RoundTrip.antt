-- ===== src/WebSocket/RoundTrip.antt =====
-- WebSocket.antt: frames that are encoded are decoded.
use Prim.Native.Nat.{bit_and, bit_or}
use ultra_net.Prelude.{
  ℕ, ◌+◌, ◌≤◌, ◌<◌, ◌^◌, ◌≡◌, refl, ap, ◌∙◌, Bool, true, false, not, [], ◌∷◌, ◌++◌, some, arith,
  ◌==◌, length, length-append, if◌then◌else◌, Bytes, append_assoc, u8, take, take-append_self,
}
use ultra_net.Prelude.Bits.{byte_masks, or_high}
use ultra_net.Prelude.Endian.{take_be-be_bytes, length-be_bytes, be_bytes}
use ultra_net.WebSocket.{
  WebSocketFrame, key_of, extended_size, mask_size, encoded_size, frame_bytes, encode_into, encode,
  read_key, read_payload, decode, decoded, apply_key, read_length,
}
use ultra_net.WebSocket.Header.{IsRead, length_field-IsRead, apply_key_twice, length-apply_key}

-- The masking key and the payload as they are written.
abbrev pub keyed : WebSocketFrame → Bool → ℕ → Bytes
keyed f m random =
    if m then be_bytes 4 (key_of f random) ++ apply_key (key_of f random) 0 f.payload else f.payload

-- The frame that the peer sees.
abbrev pub received : WebSocketFrame → Bool → ℕ → WebSocketFrame
received f m random = record f { mask = m; masking_key = if m then key_of f random else 0 }

first_byte :
    (fin : Bool) (op : ℕ)
    → op < 16
    → (not (bit_and (bit_or (if fin then 0x80 else 0) (u8 op)) 0x80 == 0) ≡ fin)
      × (bit_and (bit_or (if fin then 0x80 else 0) (u8 op)) 0x0f ≡ op)
first_byte true op h = ground (arith, or_high op (omega arith), byte_masks (128 + op) (omega arith))
first_byte false op h = ground (arith, or_high op (omega arith), byte_masks op (omega arith))

length-keyed :
    (f : WebSocketFrame) (m : Bool) (random : ℕ)
    → length (keyed f m random) ≡ mask_size m + length f.payload
length-keyed f true random = omega (
  arith,
  length-append (be_bytes 4 (key_of f random)) (apply_key (key_of f random) 0 f.payload),
  length-be_bytes 4 (key_of f random),
  length-apply_key (key_of f random) 0 f.payload,
)
length-keyed f false random = omega arith

-- The encoder fills its buffer exactly.
pub length-frame_bytes :
    (f : WebSocketFrame) (m : Bool) (random : ℕ)
    → length f.payload < 2 ^ 63
    → length (frame_bytes f m random) ≡ encoded_size (length f.payload) m
unfolding frame_bytes encoded_size
length-frame_bytes f m random fits =
    let l = length_field-IsRead m (length f.payload) fits in
    ground (
      arith,
      l.written,
      l.size,
      length-append l.extended (keyed f m random),
      length-keyed f m random,
    )

extended_size-le : (n : ℕ) → extended_size n ≤ 8
extended_size-le n = ground arith

read_payload_exact :
    (len : ℕ) (g : WebSocketFrame) (pos n : ℕ) (body s : Bytes)
    → length body ≡ n
    → pos + n ≤ len
    → pos + n < 2 ^ 64
    → read_payload len g n pos (body ++ s)
      ≡ decoded
          (record g { payload = if g.mask then apply_key g.masking_key 0 body else body })
          (pos + n)
unfolding read_payload
read_payload_exact len g pos n body s e room fits =
    ground (arith, length-append body s, ap (λ k. take k (body ++ s)) e, take-append_self body s)

read_key_written :
    (pos k : ℕ) (body s : Bytes)
    → k < 2 ^ 32
    → read_key true pos ((be_bytes 4 k ++ body) ++ s) ≡ some (k, pos + 4, body ++ s)
unfolding read_key
read_key_written pos k body s h = ground (arith, take_be-be_bytes 4 k (body ++ s) h)

read_key_absent : (pos : ℕ) (s : Bytes) → read_key false pos s ≡ some (0, pos, s)
unfolding read_key
read_key_absent pos s = refl

decode_parts :
    (b0 b1 : ℕ) (s r r' : Bytes) (fin mask : Bool) (op n pos key pos' : ℕ)
    → not (bit_and b0 0x80 == 0) ≡ fin
    → bit_and b0 0x0f ≡ op
    → not (bit_and b1 0x80 == 0) ≡ mask
    → read_length (bit_and b1 0x7f) s ≡ some (n, pos, r)
    → read_key mask pos r ≡ some (key, pos', r')
    → decode (b0 ∷ b1 ∷ s)
      ≡ read_payload
          (2 + length s)
          (record { fin = fin; opcode = op; mask = mask; masking_key = key; payload = [] })
          n
          pos'
          r'
unfolding decode
decode_parts b0 b1 s r r' fin mask op n pos key pos' f o m l k = ground arith

-- The fields and the payload behind the length field, with and without a key.
decode-keyed :
    (f : WebSocketFrame) (m : Bool) (random : ℕ) (s : Bytes) (b0 : ℕ)
    (l : IsRead m (length f.payload))
    → not (bit_and b0 0x80 == 0) ≡ f.fin
    → bit_and b0 0x0f ≡ f.opcode
    → key_of f random < 2 ^ 32
    → length f.payload < 2 ^ 63
    → decode (b0 ∷ l.first ∷ (l.extended ++ (keyed f m random ++ s)))
      ≡ decoded (received f m random) (encoded_size (length f.payload) m)
unfolding encoded_size
decode-keyed f true random s b0 l fin op key fits =
    let k = key_of f random in
    let n = length f.payload in
    let body = apply_key k 0 f.payload in
    let room : 2 + extended_size n + 4 + n ≤ 2 + length (l.extended ++ (keyed f true random ++ s)) =
      omega (
        arith,
        l.size,
        length-append l.extended (keyed f true random ++ s),
        length-append (keyed f true random) s,
        length-keyed f true random,
      ) in
    decode_parts b0 l.first _ _ _ f.fin true f.opcode n (2 + extended_size n) k
      (2 + extended_size n + 4) fin op l.mask_bit (l.read _)
      (read_key_written (2 + extended_size n) k body s key)
    ∙ ground (
      arith,
      apply_key_twice k 0 f.payload,
      read_payload_exact (2 + length (l.extended ++ (keyed f true random ++ s)))
          (record f { mask = true; masking_key = k; payload = [] }) (2 + extended_size n + 4) n body
          s (length-apply_key k 0 f.payload) room (omega (arith, extended_size-le n)),
    )
decode-keyed f false random s b0 l fin op key fits =
    let n = length f.payload in
    let room : 2 + extended_size n + n ≤ 2 + length (l.extended ++ (f.payload ++ s)) =
      omega (arith, l.size, length-append l.extended (f.payload ++ s), length-append f.payload s) in
    decode_parts b0 l.first _ _ _ f.fin false f.opcode n (2 + extended_size n) 0
      (2 + extended_size n) fin op l.mask_bit (l.read _)
      (read_key_absent (2 + extended_size n) (f.payload ++ s))
    ∙ ground (
      arith,
      read_payload_exact (2 + length (l.extended ++ (f.payload ++ s)))
          (record f { mask = false; masking_key = 0; payload = [] }) (2 + extended_size n) n
          f.payload s refl (room) (omega (arith, extended_size-le n)),
    )

-- Whatever comes behind it, an encoded frame is decoded to the frame that was encoded, and exactly
-- its bytes are consumed: masked if it was sent masked, with the key that was used, and with the
-- payload as it was before the key was applied. The opcode is one of four bits, the key of 32, and the
-- payload is shorter than 2 ^ 63.
pub decode-encode :
    (f : WebSocketFrame) (m : Bool) (random : ℕ) (s : Bytes)
    → f.opcode < 16
    → key_of f random < 2 ^ 32
    → length f.payload < 2 ^ 63
    → decode (encode f m random ++ s)
      ≡ decoded (received f m random) (encoded_size (length f.payload) m)
unfolding encode encode_into frame_bytes
decode-encode f m random s op key fits =
    let l = length_field-IsRead m (length f.payload) fits in
    let b = first_byte f.fin f.opcode op in
    ground (
      arith,
      l.written,
      append_assoc l.extended (keyed f m random) s,
      decode-keyed f m random s (bit_or (if f.fin then 0x80 else 0) (u8 f.opcode)) l b.0 b.1 key
          fits,
    )
