-- ===== src/Cluster/Tests.antt =====
-- Runs of Cluster.antt on small inputs.
use ultra_net.Prelude.{List, ◌≡◌, [], ◌∷◌, some, arith, codes}
use ultra_net.Cluster.{
  NodeInfo, Cluster, live_nodes, live_peers, is_live, read_gossip, build_gossip,
}
use ultra_net.Cluster.Gossip.{IsNode, read_gossip-build_gossip}

abbrev one : NodeInfo
one = record { id = 1; addr = codes "a:1"; last_seen = 900 }

abbrev two : NodeInfo
two = record { id = 2; addr = codes "b:2"; last_seen = 500 }

abbrev known : Cluster
known = record { self = one; seeds = []; peers = two ∷ [] }

one-IsNode : IsNode one
one-IsNode = record { id = omega arith; addr = omega arith; last_seen = omega arith }

two-IsNode : IsNode two
two-IsNode = record { id = omega arith; addr = omega arith; last_seen = omega arith }

read_gossip-build_gossip_example :
    read_gossip (build_gossip known 1000) ≡ some (1, live_nodes known 1000 3000)
unfolding live_nodes live_peers is_live
read_gossip-build_gossip_example =
    read_gossip-build_gossip known 1000 one-IsNode (two-IsNode, tt) (omega arith)

-- An older time and another address that the message lists for node 2 do not replace the newer ones.
abbrev listed : List NodeInfo
listed = one ∷ record { id = 2; addr = codes "c:2"; last_seen = 400 } ∷ []
