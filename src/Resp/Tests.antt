-- ===== src/Resp/Tests.antt =====
-- resp.hpp at concrete inputs.
use ultra_net.Prelude.{List, length, arith, ◌≤◌, ◌≡◌, refl, [], ◌∷◌, codes, Bytes, ◌++◌}
use ultra_net.Prelude.Decimal.{read_digits, to_string}
use ultra_net.Resp.{
  parse_request, returns, undefined, need_more, detect_response, encode_request,
  detect_request_boundary, RespRequest, response_end,
}
use ultra_net.Resp.RoundTrip.{parse_request-encode_request}
use ultra_net.Resp.Request.{parse_request-append, detect_request_boundary-parse_request}
use ultra_net.Resp.Response.{response_end_fuel}
use ultra_net.Resp.Replies.{
  Reply, Replies, array, bulk, null_bulk, more, IsWire, wire, detect_response-wire,
}

ping :
    parse_request (codes "*1\r\n$4\r\nPING\r\n+OK")
    ≡ returns (record { args = codes "PING" ∷ []; consumed = 14 })
unfolding parse_request read_digits ultra_net.Resp.number_line ultra_net.Resp.crlf
    ultra_net.Resp.parse_args ultra_net.Resp.bulk_header
ping = refl

inline :
    parse_request (codes " SET  k v\r\nx")
    ≡ returns (record { args = codes "SET" ∷ codes "k" ∷ codes "v" ∷ []; consumed = 11 })
unfolding parse_request read_digits ultra_net.Resp.parse_inline ultra_net.Resp.to_cr
    ultra_net.Resp.crlf ultra_net.Resp.split_spaces
inline = refl

overflow : parse_request (codes "*9223372036854775808\r\n") ≡ undefined
unfolding parse_request read_digits ultra_net.Resp.number_line
overflow = refl

nested : detect_response (codes "*2\r\n$3\r\nabc\r\n*1\r\n:7\r\n+rest") ≡ returns 21
unfolding detect_response read_digits ultra_net.Resp.response_end ultra_net.Resp.number_line
    ultra_net.Resp.crlf ultra_net.Resp.elements_end ultra_net.Resp.bulk_end ultra_net.Resp.line_end
    ultra_net.Resp.array_end
nested = refl

huge_count : detect_response (codes "*999999999999\r\n$3\r\n") ≡ returns 0
unfolding detect_response read_digits ultra_net.Resp.response_end ultra_net.Resp.number_line
    ultra_net.Resp.crlf ultra_net.Resp.elements_end ultra_net.Resp.bulk_end ultra_net.Resp.array_end
huge_count = refl

encoded : encode_request (codes "GET" ∷ codes "k" ∷ []) ≡ codes "*2\r\n$3\r\nGET\r\n$1\r\nk\r\n"
unfolding encode_request to_string ultra_net.Resp.encode_args ultra_net.Resp.encode_bulk
encoded = refl

boundary : detect_request_boundary (codes "*2\r\n$3\r\nGET\r\n$1\r\nk\r\n*1") ≡ returns 20
unfolding detect_request_boundary read_digits ultra_net.Resp.request_end ultra_net.Resp.number_line
    ultra_net.Resp.crlf ultra_net.Resp.skip_args ultra_net.Resp.bulk_header
boundary = refl

abbrev get_k : List Bytes
get_k = codes "GET" ∷ codes "k" ∷ []

parse_request-encode_request_example :
    parse_request (encode_request get_k ++ codes "*1\r\n")
    ≡ returns (record { args = get_k; consumed = length (encode_request get_k) })
parse_request-encode_request_example =
    parse_request-encode_request get_k (codes "*1\r\n") (omega arith) (omega arith)

abbrev ping_request : RespRequest
ping_request = record { args = codes "PING" ∷ []; consumed = 14 }

ping_whole : parse_request (codes "*1\r\n$4\r\nPING\r\n") ≡ returns ping_request
unfolding parse_request read_digits ultra_net.Resp.number_line ultra_net.Resp.crlf
    ultra_net.Resp.parse_args ultra_net.Resp.bulk_header
ping_whole = refl

parse_request-append_example :
    (parse_request (codes "*1\r\n$4\r\nPING\r\n" ++ codes "*1") ≡ returns ping_request)
    × (14 ≤ length (codes "*1\r\n$4\r\nPING\r\n"))
parse_request-append_example =
    parse_request-append (codes "*1\r\n$4\r\nPING\r\n") (codes "*1") ping_request ping_whole
      (omega arith)

detect_request_boundary-parse_request_example :
    detect_request_boundary (codes "*1\r\n$4\r\nPING\r\n") ≡ returns 14
detect_request_boundary-parse_request_example =
    detect_request_boundary-parse_request (codes "*1\r\n$4\r\nPING\r\n") ping_request ping_whole
      (omega arith) (omega arith)

integer_reply : detect_response (codes ":42\r\n") ≡ returns 5
unfolding detect_response response_end ultra_net.Resp.line_end
integer_reply = refl

response_end_fuel_example :
    response_end 20 (codes "*1\r\n:1\r\n") ≡ response_end 9 (codes "*1\r\n:1\r\n")
response_end_fuel_example =
    response_end_fuel 20 9 (codes "*1\r\n:1\r\n") (omega arith) (omega arith)

abbrev pair_reply : Reply
pair_reply =
    array (more (bulk (codes "ab")) (more (array (more null_bulk Replies.none)) Replies.none))

pair_reply-IsWire : IsWire pair_reply
unfolding IsWire
pair_reply-IsWire = omega arith

detect_response-wire_example :
    detect_response (wire pair_reply ++ codes "+OK") ≡ returns (length (wire pair_reply))
detect_response-wire_example = detect_response-wire pair_reply (codes "+OK") pair_reply-IsWire
