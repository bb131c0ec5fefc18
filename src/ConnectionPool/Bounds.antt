-- ===== src/ConnectionPool/Bounds.antt =====
-- ConnectionPool.antt: the limit on the connections.
use ultra_net.Prelude.{◌+◌, ◌≤◌}
use ultra_net.ConnectionPool.{ConnectionPoolConfig, ConnectionPool}

-- Every connection that is open or being opened is counted, and no more are counted than the limit.
pub record IsBounded (c : ConnectionPoolConfig) (s : ConnectionPool) : Type 0 where
  pub counted : s.idle + s.lent + s.connecting + s.warming ≤ s.total_connections
  pub limited : s.total_connections ≤ c.max_connections
