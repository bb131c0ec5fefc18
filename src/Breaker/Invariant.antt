-- ===== src/Breaker/Invariant.antt =====
-- Breaker.antt: what holds of a breaker between any two calls.
use ultra_net.Prelude.{ℕ, ◌^◌, ◌<◌, ◌≡◌, List, [], ◌∷◌, arith, All, leb, if◌then◌else◌}
use ultra_net.Breaker.{
  Config, Breaker, closed, open_state, init, try_acquire, on_success, on_failure, reset, Call,
  acquires, fails, succeeds, resets, step, run,
}

-- The failures in a row that open a closed breaker: a threshold of 0 acts as 1.
abbrev pub limit : Config → ℕ
limit c = if leb 1 c.failure_threshold then c.failure_threshold else 1

pub record IsValid (b : Breaker) : Type 0 where
  pub fits : b.config.failure_threshold < 2 ^ 64
  pub below_limit : b.state ≡ closed → b.failure_count < limit b.config
  pub stamped : b.state ≡ open_state → 0 < b.last_failure_ns

-- The steady clock of a running machine does not read 0.
abbrev pub IsTimed : Call → Type 0
IsTimed (fails now) = 0 < now
IsTimed (acquires now) = Unit
IsTimed succeeds = Unit
IsTimed resets = Unit

pub init-IsValid : (c : Config) → c.failure_threshold < 2 ^ 64 → IsValid (init c)
unfolding init
init-IsValid c h = ground arith

try_acquire-IsValid : (b : Breaker) (now : ℕ) → IsValid b → IsValid (try_acquire b now).0
unfolding try_acquire
try_acquire-IsValid b now v = ground arith

on_failure-IsValid : (b : Breaker) (now : ℕ) → 0 < now → IsValid b → IsValid (on_failure b now)
unfolding on_failure
on_failure-IsValid b now h v = ground arith

on_success-IsValid : (b : Breaker) → IsValid b → IsValid (on_success b)
unfolding on_success
on_success-IsValid b v = ground arith

reset-IsValid : (b : Breaker) → IsValid b → IsValid (reset b)
unfolding reset
reset-IsValid b v = ground arith

step-IsValid : (b : Breaker) (c : Call) → IsTimed c → IsValid b → IsValid (step b c)
unfolding step
step-IsValid b (acquires now) t v = try_acquire-IsValid b now v
step-IsValid b (fails now) t v = on_failure-IsValid b now t v
step-IsValid b succeeds t v = on_success-IsValid b v
step-IsValid b resets t v = reset-IsValid b v

-- If the breaker is valid and no failure is reported at time 0, it is valid after any calls: closed,
-- it has counted fewer failures than open it; open, it holds the time of a failure.
pub run-IsValid : (b : Breaker) (cs : List Call) → All IsTimed cs → IsValid b → IsValid (run b cs)
unfolding run
run-IsValid b [] t v = v
run-IsValid b (c ∷ cs) (t, ts) v = run-IsValid (step b c) cs ts (step-IsValid b c t v)
