-- ===== src/ConnectionPool/Leak.antt =====
-- ConnectionPool.antt: connections that are counted and no longer there.
use ultra_net.Prelude.{ℕ, zero, suc, ◌+◌, ◌-◌, ◌^◌, ◌≤◌, ◌<◌, ◌≡◌, refl, false, some, inc64, arith}
use ultra_net.ConnectionPool.{
  ConnectionPoolConfig, ConnectionPool, new, acquire, connected, release_invalid, step, Reach,
  start, next,
}

-- A state in which no connection is there, but n are counted.
pub record IsLeaked (n : ℕ) (s : ConnectionPool) : Type 0 where
  pub shutdown : s.shutdown ≡ false
  pub idle : s.idle ≡ 0
  pub lent : s.lent ≡ 0
  pub connecting : s.connecting ≡ 0
  pub warming : s.warming ≡ 0
  pub total : s.total_connections ≡ n

abbrev with_place : ConnectionPool → ConnectionPool
with_place s = record s {
  total_connections = inc64 s.total_connections;
  connecting = s.connecting + 1;
}

abbrev opened : ConnectionPool → ConnectionPool
opened s = record s {
  connecting = s.connecting - 1;
  lent = s.lent + 1;
  acquired = inc64 s.acquired;
}

acquire_reserved :
    (c : ConnectionPoolConfig) (s : ConnectionPool)
    → s.shutdown ≡ false
    → s.idle ≡ 0
    → s.total_connections < c.max_connections
    → step c s acquire ≡ some (with_place s)
unfolding step
acquire_reserved c s d i b = ground (arith, d, i, b)

connected_opened :
    (c : ConnectionPoolConfig) (s : ConnectionPool)
    → 0 < s.connecting
    → step c s connected ≡ some (opened s)
unfolding step
connected_opened c s p = ground (arith, p)

release_invalid_lost :
    (c : ConnectionPoolConfig) (s : ConnectionPool)
    → 0 < s.lent
    → step c s release_invalid ≡ some (record s { lent = s.lent - 1 })
unfolding step
release_invalid_lost c s p = ground (arith, p)

leak_to :
    (c : ConnectionPoolConfig) (n : ℕ)
    → c.max_connections < 2 ^ 64
    → n ≤ c.max_connections
    → (s : ConnectionPool) × Reach c s × IsLeaked n s
unfolding new
leak_to c zero small h = (
  new,
  start,
  record {
    shutdown = refl;
    idle = refl;
    lent = refl;
    connecting = refl;
    warming = refl;
    total = refl;
  },
)
leak_to c (suc n) small h =
    let (s, r, v) = leak_to c n small (omega (arith, h)) in
    let r1 = next acquire r (acquire_reserved c s v.shutdown v.idle (omega (arith, v.total, h))) in
    let r2 = next connected r1 (connected_opened c (with_place s) (omega arith)) in
    let r3 =
      next release_invalid r2 (release_invalid_lost c (opened (with_place s)) (omega arith)) in
    (
      record (opened (with_place s)) { lent = s.lent + 1 - 1 },
      r3,
      record {
        shutdown = v.shutdown;
        idle = v.idle;
        lent = omega (arith, v.lent);
        connecting = omega (arith, v.connecting);
        warming = v.warming;
        total = omega (arith, v.total, h, small);
      },
    )

-- The pool comes to a state in which it is not shut down and no connection is idle, lent or being
-- opened, but as many are counted as the configuration allows, which is a number of 64 bits; a call of
-- `acquire` waits there.
pub Reach-IsLeaked :
    (c : ConnectionPoolConfig)
    → c.max_connections < 2 ^ 64
    → (s : ConnectionPool) × Reach c s
      × IsLeaked c.max_connections s
      × (step c s acquire ≡ some (record s { waiting = s.waiting + 1 }))
unfolding step
Reach-IsLeaked c small =
    let (s, r, v) = leak_to c c.max_connections small (omega arith) in
    (s, r, v, ground (arith, v.shutdown, v.idle, v.total))
