-- ===== src/Cluster/Merge.antt =====
-- Cluster.antt: what a message changes of what is known.
use ultra_net.Prelude.{ℕ, ◌≤◌, ◌≡◌, List, [], ◌∷◌, some, ◌⊎◌}
use ultra_net.Cluster.{NodeInfo, find}

-- Something at least as new is known of the node.
pub IsKnown : ℕ → ℕ → List NodeInfo → Type 0
IsKnown k seen ps = (n : NodeInfo) × (find k ps ≡ some n) × (seen ≤ n.last_seen)

-- A node that a message lists, with its time.
unfoldable pub IsListed : ℕ → ℕ → List NodeInfo → Type 0
IsListed k seen [] = ⊥
IsListed k seen (n ∷ ns) = ((n.id ≡ k) × (n.last_seen ≡ seen)) ⊎ IsListed k seen ns

-- A message lists this very node, with its address and its time.
unfoldable pub Lists : NodeInfo → List NodeInfo → Type 0
Lists n [] = ⊥
Lists n (m ∷ ms) = (m ≡ n) ⊎ Lists n ms
