-- ===== src/WebSocket/Tests.antt =====
-- WebSocket.antt at concrete inputs.
use ultra_net.Prelude.{Bytes, ◌≡◌, refl, [], ◌∷◌, ◌++◌, codes, arith, true, false}
use ultra_net.WebSocket.{
  WebSocketFrame, decode, encode, decoded, throws, parse_inline_frame, blank_frame, encoded_size,
  close,
}
use ultra_net.WebSocket.RoundTrip.{decode-encode, received}
use ultra_net.WebSocket.Inline.{Agrees, parse_inline_frame-Agrees}

-- The masked "Hello" of RFC 6455.
abbrev hello : WebSocketFrame
hello = record blank_frame { masking_key = 0x37fa213d; payload = codes "Hello" }

hello_bytes :
    encode hello true 0
    ≡ 0x81 ∷ 0x85 ∷ 0x37 ∷ 0xfa ∷ 0x21 ∷ 0x3d ∷ 0x7f ∷ 0x9f ∷ 0x4d ∷ 0x51 ∷ 0x58 ∷ []
unfolding encode ultra_net.WebSocket.encode_into encoded_size ultra_net.WebSocket.frame_bytes
    ultra_net.WebSocket.length_field ultra_net.WebSocket.apply_key
hello_bytes = refl

close_bytes : encode (close 1000 []) false 0 ≡ 0x88 ∷ 0x02 ∷ 0x03 ∷ 0xe8 ∷ []
unfolding encode ultra_net.WebSocket.encode_into encoded_size close ultra_net.WebSocket.frame_bytes
    ultra_net.WebSocket.length_field
close_bytes = refl

decode-encode_example :
    decode (encode hello true 0 ++ codes "x") ≡ decoded (received hello true 0) 11
unfolding encoded_size
decode-encode_example =
    decode-encode hello true 0 (codes "x") (omega arith) (omega arith) (omega arith)

-- The text "A", masked.
abbrev masked : Bytes
masked = 0x81 ∷ 0x81 ∷ 0x01 ∷ 0x02 ∷ 0x03 ∷ 0x04 ∷ 0x40 ∷ []

parse_inline_frame-Agrees_example : Agrees masked (decode masked) (parse_inline_frame masked)
parse_inline_frame-Agrees_example = parse_inline_frame-Agrees masked
