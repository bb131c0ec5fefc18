-- ===== src/Cluster.antt =====
-- include/ultranet/actor/net/cluster.h: what a node knows of the others, and the gossip that spreads it.
-- The numbers of a message are in the byte order of a little-endian machine. The map of the peers is a
-- list, in the order of its iteration.
pub mod Gossip
pub mod Merge
mod Tests
use ultra_net.Prelude.{
  ℕ, zero, suc, ◌+◌, ◌-◌, ◌%◌, ◌^◌, Bool, true, false, List, [], ◌∷◌, ◌++◌, Option, none, some, ltb,
  ◌==◌, if◌then◌else◌, length, take, drop, Bytes, u32,
}
use ultra_net.Prelude.Endian.{le_bytes, take_le}

pub put64 : ℕ → Bytes
put64 v = le_bytes 8 v

pub put32 : ℕ → Bytes
put32 v = le_bytes 4 v

pub get64 : Bytes → Option (ℕ × Bytes)
get64 s = take_le 8 s

pub get32 : Bytes → Option (ℕ × Bytes)
get32 s = take_le 4 s

pub record NodeInfo : Type 0 where
  pub id : ℕ
  pub addr : Bytes
  pub last_seen : ℕ

pub record Cluster : Type 0 where
  pub self : NodeInfo
  pub seeds : List Bytes
  pub peers : List NodeInfo

pub cluster : ℕ → Bytes → ℕ → Cluster
cluster id addr now = record {
  self = record { id = id; addr = addr; last_seen = now };
  seeds = [];
  peers = [];
}

pub add_seed : Cluster → Bytes → Cluster
add_seed c addr = record c { seeds = c.seeds ++ (addr ∷ []) }

-- `now - info.last_seen < timeout_ms`, a difference of 64 bits.
unfoldable pub is_live : ℕ → ℕ → NodeInfo → Bool
is_live now timeout n = ltb ((now + 2 ^ 64 - n.last_seen) % 2 ^ 64) timeout

unfoldable pub live_peers : ℕ → ℕ → List NodeInfo → List NodeInfo
live_peers now timeout [] = []
live_peers now timeout (n ∷ ns) =
    let rest = live_peers now timeout ns in if is_live now timeout n then n ∷ rest else rest

unfoldable pub live_nodes : Cluster → ℕ → ℕ → List NodeInfo
live_nodes c now timeout = c.self ∷ live_peers now timeout c.peers

pub find : ℕ → List NodeInfo → Option NodeInfo
find k [] = none
find k (n ∷ ns) = if k == n.id then some n else find k ns

-- `m_peers[id] = ...`.
pub put : NodeInfo → List NodeInfo → List NodeInfo
put m [] = m ∷ []
put m (n ∷ ns) = let rest = put m ns in if m.id == n.id then m ∷ ns else n ∷ rest

pub mark_seen : Cluster → ℕ → ℕ → Bytes → Cluster
mark_seen c now id addr = record c {
  peers = put (record { id = id; addr = addr; last_seen = now }) c.peers;
}

pub node_bytes : NodeInfo → Bytes
node_bytes n = put64 n.id ++ (put32 (u32 (length n.addr)) ++ (n.addr ++ put64 n.last_seen))

pub nodes_bytes : List NodeInfo → Bytes
nodes_bytes [] = []
nodes_bytes (n ∷ ns) = node_bytes n ++ nodes_bytes ns

pub build_gossip : Cluster → ℕ → Bytes
build_gossip c now =
    let nodes = live_nodes c now 3000 in
    put64 c.self.id ++ (put32 (u32 (length nodes)) ++ nodes_bytes nodes)

-- Reads of a message; none where the code reads behind its end.
pub read_addr : ℕ → ℕ → Bytes → Option (NodeInfo × Bytes)
read_addr id n s = if ltb (length s) n then none else elim (get64 (drop n s)) [
  | none ↦ none
  | some (seen, r) ↦ some (record { id = id; addr = take n s; last_seen = seen }, r)
]

pub read_node : Bytes → Option (NodeInfo × Bytes)
read_node s = elim (get64 s) [
  | none ↦ none
  | some (id, r) ↦ elim (get32 r) [ none ↦ none | some (n, r') ↦ read_addr id n r' ]
]

pub read_nodes : ℕ → Bytes → Option (List NodeInfo)
read_nodes zero s = some []
read_nodes (suc k) s = elim (read_node s) [
  | none ↦ none
  | some (n, r) ↦ elim (read_nodes k r) [ none ↦ none | some ns ↦ some (n ∷ ns) ]
]

pub read_gossip : Bytes → Option (ℕ × List NodeInfo)
read_gossip s = elim (get64 s) [
  | none ↦ none
  | some (src, r) ↦ elim (get32 r) [
    | none ↦ none
    | some (k, r') ↦ elim (read_nodes k r') [ none ↦ none | some ns ↦ some (src, ns) ]
  ]
]

-- The end of the loop's body in `apply_gossip`.
pub merge : ℕ → NodeInfo → List NodeInfo → List NodeInfo
merge self n ps = if n.id == self then ps else elim (find n.id ps) [
  | none ↦ put n ps
  | some old ↦ if ltb old.last_seen n.last_seen then put n ps else ps
]

pub merge_all : ℕ → List NodeInfo → List NodeInfo → List NodeInfo
merge_all self [] ps = ps
merge_all self (n ∷ ns) ps = merge_all self ns (merge self n ps)

-- The source of a message is seen when it comes in.
pub touch : ℕ → ℕ → List NodeInfo → List NodeInfo
touch src now [] = []
touch src now (n ∷ ns) =
    let rest = touch src now ns in
    if src == n.id then record n { last_seen = now } ∷ ns else n ∷ rest

pub apply_gossip : Cluster → ℕ → Bytes → Option Cluster
apply_gossip c now s = elim (read_gossip s) [
  | none ↦ none
  | some (src, ns) ↦ some (record c { peers = touch src now (merge_all c.self.id ns c.peers) })
]
