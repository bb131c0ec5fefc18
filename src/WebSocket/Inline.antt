-- ===== src/WebSocket/Inline.antt =====
-- WebSocket.antt: `parse_inline_frame` against `decode`, and frames whose length field overflows.
use Prim.Native.Nat.{bit_and}
use ultra_net.Prelude.{
  ℕ, ◌+◌, ◌≤◌, ◌<◌, ◌%◌, ◌^◌, ◌≡◌, refl, not, [], ◌∷◌, ◌++◌, some, none, arith, ltb, ◌==◌, length,
  if◌then◌else◌, Bytes, inl, inr, Bool-cases, Option-cases, take, drop, zero, suc, ◌*◌, length-take,
  length-drop, Bool, true, false, ap, ◌∙◌, sym, subst,
}
use ultra_net.Prelude.Endian.{take_be, take_be-be_bytes, be_bytes}
use ultra_net.WebSocket.Header.{length-apply_key}
use ultra_net.WebSocket.{
  WebSocketFrame, InlineFrameInfo, decode, decoded, need_more, throws, Decoded, parse_inline_frame,
  read_length, read_key, read_payload, apply_key,
}

drop-nil : (n : ℕ) → drop {A = ℕ} n [] ≡ []
drop-nil zero = refl
drop-nil (suc n) = refl

drop-drop : (k n : ℕ) (s : Bytes) → drop {A = ℕ} (n + k) s ≡ drop k (drop n s)
drop-drop k zero s = ap (λ j. drop j s) {x = 0 + k} {y = k} (omega arith)
drop-drop k (suc n) [] = drop-nil (suc n + k) ∙ sym (drop-nil k)
drop-drop k (suc n) (b ∷ s) =
    ap (λ j. drop j (b ∷ s)) {x = suc n + k} {y = suc (n + k)} (omega arith) ∙ drop-drop k n s

take_be-drop :
    (k : ℕ) (s : Bytes) (v n : ℕ) {r : Bytes} → take_be k s v ≡ some (n, r) → drop k s ≡ r
take_be-drop zero s v n {r} h = ground (arith, h)
take_be-drop (suc k) [] v n {r} h = absurd (cc h)
take_be-drop (suc k) (b ∷ s) v n {r} h = take_be-drop k s (v * 256 + b) n {r = r} h

-- The position that the readers give is that of the bytes they give.
read_length-drop :
    (x b0 b1 : ℕ) (s : Bytes) (n pos : ℕ) {r : Bytes}
    → read_length x s ≡ some (n, pos, r)
    → drop pos (b0 ∷ b1 ∷ s) ≡ r
unfolding read_length
read_length-drop x b0 b1 s n pos {r} h = elim (Bool-cases (x == 126)) [
  | inl t ↦ elim (Option-cases (take_be 2 s 0)) [
    | inl e ↦ absurd (ground (arith, t, e, h))
    | inr ((m, q), e) ↦
        let at : pos ≡ 4 = ground (arith, t, e, h) in
        let rest : q ≡ r = ground (arith, t, e, h) in
        ap (λ j. drop j (b0 ∷ b1 ∷ s)) at ∙ take_be-drop 2 s 0 m e ∙ rest
  ]
  | inr o ↦ elim (Bool-cases (x == 127)) [
    | inl t ↦ elim (Option-cases (take_be 8 s 0)) [
      | inl e ↦ absurd (ground (arith, o, t, e, h))
      | inr ((m, q), e) ↦
          let at : pos ≡ 10 = ground (arith, o, t, e, h) in
          let rest : q ≡ r = ground (arith, o, t, e, h) in
          ap (λ j. drop j (b0 ∷ b1 ∷ s)) at ∙ take_be-drop 8 s 0 m e ∙ rest
    ]
    | inr u ↦
        let at : pos ≡ 2 = ground (arith, o, u, h) in
        let rest : s ≡ r = ground (arith, o, u, h) in ap (λ j. drop j (b0 ∷ b1 ∷ s)) at ∙ rest
  ]
]

read_key-drop :
    (masked : Bool) (pos : ℕ) (w r : Bytes) (key pos' : ℕ) {q : Bytes}
    → drop pos w ≡ r
    → read_key masked pos r ≡ some (key, pos', q)
    → drop pos' w ≡ q
unfolding read_key
read_key-drop false pos w r key pos' {q} d h =
    let at : pos' ≡ pos = ground (arith, h) in
    let rest : r ≡ q = ground (arith, h) in ap (λ j. drop j w) at ∙ d ∙ rest
read_key-drop true pos w r key pos' {q} d h = elim (Option-cases (take_be 4 r 0)) [
  | inl e ↦ absurd (ground (arith, e, h))
  | inr ((m, x), e) ↦
      let at : pos' ≡ pos + 4 = ground (arith, e, h) in
      let rest : x ≡ q = ground (arith, e, h) in
      ap (λ j. drop j w) at ∙ drop-drop 4 pos w ∙ ap (drop 4) d ∙ take_be-drop 4 r 0 m e ∙ rest
]

-- The payload that the fast parser points at in a buffer, without its mask.
abbrev pub payload_at : Bytes → InlineFrameInfo → Bytes
payload_at s i =
    let payload = take i.payload_len (drop i.header_len s) in
    if i.masked then apply_key i.mask_key 0 payload else payload

abbrev unmasked : Bool → ℕ → ℕ → Bytes → Bytes
unmasked masked key n s = if masked then apply_key key 0 (take n s) else take n s

payload_size :
    (masked : Bool) (key n : ℕ) (s : Bytes)
    → ltb (length s) n ≡ false
    → n ≡ length (unmasked masked key n s)
payload_size true key n s h =
    let fits : n ≤ length s = ground (arith, h) in
    omega (arith, length-apply_key key 0 (take n s), length-take n s, fits)
payload_size false key n s h =
    let fits : n ≤ length s = ground (arith, h) in omega (arith, length-take n s, fits)

-- The fast parser agrees with the decoder on what is in the buffer.
abbrev pub Agrees : Bytes → Decoded → InlineFrameInfo → Type 0
Agrees s need_more i = i.payload_ptr ≡ none
Agrees s throws i = (i.payload_ptr ≡ some i.header_len) × (length s < i.header_len + i.payload_len)
Agrees s (decoded f n) i =
    (i.payload_ptr ≡ some i.header_len)
    × (i.total_consumed ≡ n)
    × (i.fin ≡ f.fin)
    × (i.opcode ≡ f.opcode)
    × (i.masked ≡ f.mask)
    × (i.mask_key ≡ f.masking_key)
    × (i.payload_len ≡ length f.payload)
    × (payload_at s i ≡ f.payload)

-- The comment on the fast parser asks for it to agree with the decoder: it points at a payload just
-- where the decoder does not ask for more bytes. Where the decoder returns a frame both have the same
-- fields and the same total length, and the payload that the fast parser points at, unmasked, is that
-- of the frame; where the decoder throws, the payload would go beyond the buffer.
pub parse_inline_frame-Agrees : (s : Bytes) → Agrees s (decode s) (parse_inline_frame s)
parse_inline_frame-Agrees [] = unfold decode parse_inline_frame in refl
parse_inline_frame-Agrees (b ∷ []) = unfold decode parse_inline_frame in refl
parse_inline_frame-Agrees (b0 ∷ b1 ∷ s) = elim (Option-cases (read_length (bit_and b1 0x7f) s)) [
  | inl e ↦
      agree_at need_more (unfold decode in ground arith) (unfold parse_inline_frame in ground arith)
  | inr ((n, pos, r), e) ↦ elim (Option-cases (read_key (not (bit_and b1 0x80 == 0)) pos r)) [
    | inl k ↦
        agree_at need_more (unfold decode in ground arith)
          (unfold parse_inline_frame in ground arith)
    | inr ((key, pos', r'), k) ↦
        let behind : drop pos' (b0 ∷ b1 ∷ s) ≡ r' =
          read_key-drop (not (bit_and b1 0x80 == 0)) pos (b0 ∷ b1 ∷ s) r key pos'
            (read_length-drop (bit_and b1 0x7f) b0 b1 s n pos e) k in
        elim (Bool-cases (ltb (2 + length s) ((pos' + n) % 2 ^ 64))) [
          | inl short ↦
              agree_at need_more (unfold decode read_payload in ground arith)
                (unfold parse_inline_frame in ground arith)
          | inr long ↦
              let info = parsed n pos r e key pos' r' k long in
              let size = length-drop pos' (b0 ∷ b1 ∷ s) in
              elim (Bool-cases (ltb (length r') n)) [
                | inl over ↦
                    let short : length r' < n = ground (arith, over) in
                    agree_at throws (unfold decode read_payload in ground arith) (
                      subst (Agrees (b0 ∷ b1 ∷ s) throws) (sym info)
                        (refl, omega (arith, size, ap length behind, short)))
                | inr fits ↦
                    agree_at (decoded (frame key n r') ((pos' + n) % 2 ^ 64))
                      (unfold decode read_payload in ground arith)
                      (subst (Agrees (b0 ∷ b1 ∷ s) (decoded (frame key n r') ((pos' + n) % 2 ^ 64)))
                        (sym info)
                        (
                          refl,
                          refl,
                          refl,
                          refl,
                          refl,
                          refl,
                          payload_size (not (bit_and b1 0x80 == 0)) key n r' fits,
                          ap (unmasked (not (bit_and b1 0x80 == 0)) key n) behind,
                        ))
              ]
        ]
  ]
]
  where
    frame : ℕ → ℕ → Bytes → WebSocketFrame
    frame key n r = record {
      fin = not (bit_and b0 0x80 == 0);
      opcode = bit_and b0 0x0f;
      mask = not (bit_and b1 0x80 == 0);
      masking_key = key;
      payload = if not (bit_and b1 0x80 == 0) then apply_key key 0 (take n r) else take n r;
    }

    info_of : ℕ → ℕ → ℕ → InlineFrameInfo
    info_of key n pos = record {
      opcode = bit_and b0 0x0f;
      fin = not (bit_and b0 0x80 == 0);
      masked = not (bit_and b1 0x80 == 0);
      mask_key = key;
      payload_ptr = some pos;
      payload_len = n;
      header_len = pos;
      total_consumed = (pos + n) % 2 ^ 64;
    }

    parsed :
        (n pos : ℕ) (r : Bytes)
        → read_length (bit_and b1 0x7f) s ≡ some (n, pos, r)
        → (key pos' : ℕ) (r' : Bytes)
        → read_key (not (bit_and b1 0x80 == 0)) pos r ≡ some (key, pos', r')
        → ltb (2 + length s) ((pos' + n) % 2 ^ 64) ≡ false
        → parse_inline_frame (b0 ∷ b1 ∷ s) ≡ info_of key n pos'
    parsed n pos r e key pos' r' k long = unfold parse_inline_frame in ground (arith, e, k, long)

    agree_at :
        (d : Decoded)
        → decode (b0 ∷ b1 ∷ s) ≡ d
        → Agrees (b0 ∷ b1 ∷ s) d (parse_inline_frame (b0 ∷ b1 ∷ s))
        → Agrees (b0 ∷ b1 ∷ s) (decode (b0 ∷ b1 ∷ s)) (parse_inline_frame (b0 ∷ b1 ∷ s))
    agree_at d e a = rw e a

-- An unmasked frame with a 64-bit length field whose sum with the header passes 2 ^ 64 is taken for a
-- complete one: the decoder throws, whatever part of the payload is there, and the fast parser points
-- at a payload of that length.
pub overlong_frame :
    (b0 n : ℕ) (s : Bytes)
    → 2 ^ 64 ≤ n + 10
    → n < 2 ^ 64
    → length s < n
    → let frame = b0 ∷ 127 ∷ (be_bytes 8 n ++ s) in
      (decode frame ≡ throws)
      × ((parse_inline_frame frame).payload_ptr ≡ some 10)
      × ((parse_inline_frame frame).payload_len ≡ n)
unfolding decode parse_inline_frame read_length read_key read_payload
overlong_frame b0 n s big word short = ground (arith, take_be-be_bytes 8 n s (omega arith))
