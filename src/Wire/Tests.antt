-- ===== src/Wire/Tests.antt =====
-- Wire.antt and Uri.antt at concrete inputs.
use ultra_net.Prelude.{◌^◌, ◌+◌, ◌≡◌, ◌↔◌, refl, [], ◌∷◌, ◌++◌, codes, arith, some, none, take}
use ultra_net.Uri.{ActorUri, to_string, parse_uri_from_wire, NoSlash, parse_uri_from_wire-to_string}
use ultra_net.Wire.{
  Routed, pack_routed, unpack_routed, pack_reply, unpack_reply, pack_ack, unpack_ack,
  pack_actor_message, unpack_actor_message, pack_actor_location, unpack_actor_location, write_u64,
  write_u32,
}
use ultra_net.Wire.Cut.{unpack_routed_cut, unpack_routed_cut_in_hash}
use ultra_net.Wire.RoundTrip.{IsSendable, front, unpack_routed-pack_routed}

abbrev ping_uri : ActorUri
ping_uri = record { node = codes "7"; type = codes "calc"; name = codes "a/b" }

parse_uri_from_wire-to_string_example :
    (parse_uri_from_wire (to_string ping_uri) ≡ ping_uri)
    ↔ (NoSlash (codes "7") × NoSlash (codes "calc"))
parse_uri_from_wire-to_string_example = parse_uri_from_wire-to_string ping_uri

abbrev ping : Routed
ping = record {
  uri = ping_uri;
  flags = 1;
  msg_id = 42;
  sender_node_id = 7;
  msg_hash = 2 ^ 32 + 0x05060708;
  payload = codes "hi";
}

ping-IsSendable : IsSendable ping
unfolding to_string
ping-IsSendable = omega arith

unpack_routed-pack_routed_example : unpack_routed (pack_routed ping ++ codes "x") ≡ some ping
unpack_routed-pack_routed_example = unpack_routed-pack_routed ping (codes "x") ping-IsSendable

unpack_routed_cut_example :
    unpack_routed (front ping (write_u64 ping.msg_hash ++ (write_u32 2 ++ codes "h"))) ≡ none
unpack_routed_cut_example = unpack_routed_cut ping (codes "h") (codes "i") ping-IsSendable refl (cc)

unpack_routed_cut_in_hash_example :
    unpack_routed (front ping (take 7 (write_u64 ping.msg_hash)))
    ≡ some (record ping { msg_hash = 0; payload = 5 ∷ [] })
unpack_routed_cut_in_hash_example = unpack_routed_cut_in_hash ping ping-IsSendable refl

-- Twenty bytes that are no frame at all.
garbage : unpack_routed (codes "GET / HTTP/1.1\r\nHost") ≡ none
unfolding unpack_routed ultra_net.Wire.read_u8
garbage = refl
