-- ===== src/Cluster/Gossip.antt =====
-- Cluster.antt: a message is read back as it was built.
use ultra_net.Prelude.{
  ℕ, ◌<◌, ◌^◌, ◌≡◌, refl, ap, ◌∙◌, List, [], ◌∷◌, ◌++◌, some, arith, length, length-append, Bytes,
  u32, append_assoc, take-append_self, drop-append_self, All, Bool-cases, inl, inr,
}
use ultra_net.Prelude.Endian.{take_le-le_bytes}
use ultra_net.Cluster.{
  put64, put32, get64, get32, NodeInfo, Cluster, live_nodes, live_peers, is_live, node_bytes,
  nodes_bytes, build_gossip, read_addr, read_node, read_nodes, read_gossip,
}

get64-put64 : (v : ℕ) (s : Bytes) → v < 2 ^ 64 → get64 (put64 v ++ s) ≡ some (v, s)
unfolding get64 put64
get64-put64 v s h = take_le-le_bytes 8 v s h

get32-put32 : (v : ℕ) (s : Bytes) → v < 2 ^ 32 → get32 (put32 v ++ s) ≡ some (v, s)
unfolding get32 put32
get32-put32 v s h = take_le-le_bytes 4 v s h

-- The numbers of a node fit their fields.
pub record IsNode (n : NodeInfo) : Type 0 where
  pub id : n.id < 2 ^ 64
  pub addr : length n.addr < 2 ^ 32
  pub last_seen : n.last_seen < 2 ^ 64

read_addr-back :
    (n : NodeInfo) (t : Bytes)
    → IsNode n
    → read_addr n.id (length n.addr) (n.addr ++ (put64 n.last_seen ++ t)) ≡ some (n, t)
unfolding read_addr
read_addr-back n t v = ground (
  arith,
  length-append n.addr (put64 n.last_seen ++ t),
  take-append_self n.addr (put64 n.last_seen ++ t),
  drop-append_self n.addr (put64 n.last_seen ++ t),
  get64-put64 n.last_seen t v.last_seen,
)

node_bytes_as :
    (n : NodeInfo) (t : Bytes)
    → node_bytes n ++ t
      ≡ put64 n.id ++ (put32 (u32 (length n.addr)) ++ (n.addr ++ (put64 n.last_seen ++ t)))
unfolding node_bytes
node_bytes_as n t = simp append_assoc

read_node-node_bytes :
    (n : NodeInfo) (t : Bytes) → IsNode n → read_node (node_bytes n ++ t) ≡ some (n, t)
unfolding read_node
read_node-node_bytes n t v =
    let size : u32 (length n.addr) ≡ length n.addr = omega (arith, v.addr) in
    let r = n.addr ++ (put64 n.last_seen ++ t) in
    ap read_node (node_bytes_as n t)
    ∙ ground (
      arith,
      size,
      get64-put64 n.id (put32 (u32 (length n.addr)) ++ r) v.id,
      get32-put32 (u32 (length n.addr)) r (omega arith),
      read_addr-back n t v,
    )

read_nodes-nodes_bytes :
    (ns : List NodeInfo) → All IsNode ns → read_nodes (length ns) (nodes_bytes ns) ≡ some ns
unfolding read_nodes nodes_bytes
read_nodes-nodes_bytes [] v = refl
read_nodes-nodes_bytes (n ∷ ns) (v, vs) =
    ground (arith, read_node-node_bytes n (nodes_bytes ns) v, read_nodes-nodes_bytes ns vs)

live_peers-IsNode :
    (now timeout : ℕ) (ns : List NodeInfo) → All IsNode ns → All IsNode (live_peers now timeout ns)
unfolding live_peers
live_peers-IsNode now timeout [] v = tt
live_peers-IsNode now timeout (n ∷ ns) (v, vs) = elim (Bool-cases (is_live now timeout n)) [
  | inl t ↦ rw t (v, live_peers-IsNode now timeout ns vs)
  | inr o ↦ rw o (live_peers-IsNode now timeout ns vs)
]

live_nodes-IsNode :
    (c : Cluster) (now : ℕ)
    → IsNode c.self
    → All IsNode c.peers
    → All IsNode (live_nodes c now 3000)
unfolding live_nodes
live_nodes-IsNode c now v vs = (v, live_peers-IsNode now 3000 c.peers vs)

-- The gossip of a node that knows fewer than 2 ^ 32 - 1 others, all numbers of which fit their fields, is
-- read as its id, and itself and the peers it takes for alive, each with its address and its time.
pub read_gossip-build_gossip :
    (c : Cluster) (now : ℕ)
    → IsNode c.self
    → All IsNode c.peers
    → length (live_nodes c now 3000) < 2 ^ 32
    → read_gossip (build_gossip c now) ≡ some (c.self.id, live_nodes c now 3000)
unfolding read_gossip build_gossip
read_gossip-build_gossip c now v vs few =
    let nodes = live_nodes c now 3000 in
    let count : u32 (length nodes) ≡ length nodes = omega (arith, few) in
    ground (
      arith,
      count,
      get64-put64 c.self.id (put32 (u32 (length nodes)) ++ nodes_bytes nodes) v.id,
      get32-put32 (u32 (length nodes)) (nodes_bytes nodes) (omega arith),
      read_nodes-nodes_bytes nodes (live_nodes-IsNode c now v vs),
    )
