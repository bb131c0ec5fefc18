-- ===== src/ConnectionPool/Tests.antt =====
-- Runs of ConnectionPool.antt on small inputs.
use ultra_net.Prelude.{◌≡◌, refl, some, arith, ◌>>=◌, ◌+◌}
use ultra_net.ConnectionPool.{
  ConnectionPoolConfig, ConnectionPool, new, step, acquire, warm, warmed, Reach, active, put_back,
  add_idle,
}
use ultra_net.ConnectionPool.Leak.{IsLeaked, Reach-IsLeaked}

abbrev config : ConnectionPoolConfig
config = record { min_connections = 1; max_connections = 2 }

abbrev connecting_one : ConnectionPool
connecting_one = record new { total_connections = 1; connecting = 1 }

Reach-IsLeaked_example :
    (s : ConnectionPool) × Reach config s
    × IsLeaked config.max_connections s
    × (step config s acquire ≡ some (record s { waiting = s.waiting + 1 }))
Reach-IsLeaked_example = Reach-IsLeaked config (omega arith)

-- A connection that was opened ahead is given back, though it was not acquired: the one that is then
-- lent is not seen as active.
active_none :
    (step config new warm
      >>= (λ s. step config s warmed >>= (λ t. step config t acquire >>= (λ u. some (active u)))))
    ≡ some 0
unfolding new step put_back add_idle active
active_none = refl
