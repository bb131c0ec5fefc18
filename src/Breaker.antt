-- ===== src/Breaker.antt =====
-- include/ultranet/coroutine/circuit_breaker.hpp: the circuit breaker. The atomics are fields, and
-- the clock is an argument of each call that reads it, in nanoseconds. Each method runs to its end
-- before the next one starts; the compare-exchange of `try_acquire` then finds the state it loaded.
pub mod Invariant
pub mod Trip
pub mod Probe
mod Tests
use ultra_net.Prelude.{
  ℕ, ◌+◌, ◌*◌, Bool, true, false, ◌&&◌, List, [], ◌∷◌, ltb, leb, if◌then◌else◌, inc64,
}

pub data CircuitState : Type 0 where
  closed open_state half_open : CircuitState

-- `open_timeout` is in milliseconds.
pub record Config : Type 0 where
  pub failure_threshold : ℕ
  pub open_timeout : ℕ

pub record Breaker : Type 0 where
  pub config : Config
  pub state : CircuitState
  pub failure_count : ℕ
  pub success_count : ℕ
  pub fast_fail_count : ℕ
  pub half_open_attempts : ℕ
  pub half_open_used : ℕ
  pub last_failure_ns : ℕ

-- `duration_cast<nanoseconds>` of the timeout, which is less than 2 ^ 63 nanoseconds here: beyond that,
-- about 292 years, the product overflows and the code is undefined.
abbrev pub open_ns : Config → ℕ
open_ns c = c.open_timeout * 1000000

pub init : Config → Breaker
init c = record {
  config = c;
  state = closed;
  failure_count = 0;
  success_count = 0;
  fast_fail_count = 0;
  half_open_attempts = 0;
  half_open_used = 0;
  last_failure_ns = 0;
}

fast_fail : Breaker → Breaker
fast_fail b = record b { fast_fail_count = inc64 b.fast_fail_count }

-- The fields of the branch of `state` in `try_acquire`.
acquire_in : CircuitState → Breaker → ℕ → Breaker × Bool
unfolding fast_fail
acquire_in closed b now = (b, true)
acquire_in open_state b now =
    if ltb 0 b.last_failure_ns && leb (b.last_failure_ns + open_ns b.config) now
    then (
      record b {
        state = half_open;
        half_open_used = 0;
        half_open_attempts = inc64 b.half_open_attempts;
      },
      true,
    )
    else (fast_fail b, false)
acquire_in half_open b now =
    let b' = record b { half_open_used = inc64 b.half_open_used } in
    if ltb b.half_open_used 1
    then (record b' { half_open_attempts = inc64 b.half_open_attempts }, true)
    else (fast_fail b', false)

pub try_acquire : Breaker → ℕ → Breaker × Bool
unfolding acquire_in
try_acquire b now = acquire_in b.state b now

close_if_half_open : CircuitState → Breaker → Breaker
close_if_half_open half_open b = record b { state = closed }
close_if_half_open closed b = b
close_if_half_open open_state b = b

pub on_success : Breaker → Breaker
unfolding close_if_half_open
on_success b =
    close_if_half_open b.state
      (record b { success_count = inc64 b.success_count; failure_count = 0 })

trip : Breaker → ℕ → Breaker
trip b now = record b { last_failure_ns = now; state = open_state }

fail_in : CircuitState → Breaker → ℕ → Breaker
unfolding trip
fail_in closed b now = if leb b.config.failure_threshold b.failure_count then trip b now else b
fail_in half_open b now = trip b now
fail_in open_state b now = b

pub on_failure : Breaker → ℕ → Breaker
unfolding fail_in
on_failure b now = fail_in b.state (record b { failure_count = inc64 b.failure_count }) now

pub reset : Breaker → Breaker
reset b = record b { state = closed; failure_count = 0; last_failure_ns = 0; half_open_used = 0 }

pub record Stats : Type 0 where
  pub total_successes : ℕ
  pub failure_count : ℕ
  pub fast_fails : ℕ
  pub half_open_attempts : ℕ

pub snapshot : Breaker → Stats
snapshot b = record {
  total_successes = b.success_count;
  failure_count = b.failure_count;
  fast_fails = b.fast_fail_count;
  half_open_attempts = b.half_open_attempts;
}

-- A call of the breaker, with the time at which it reads the clock.
pub data Call : Type 0 where
  acquires fails : ℕ → Call
  succeeds resets : Call

pub step : Breaker → Call → Breaker
step b (acquires now) = (try_acquire b now).0
step b (fails now) = on_failure b now
step b succeeds = on_success b
step b resets = reset b

pub run : Breaker → List Call → Breaker
run b [] = b
run b (c ∷ cs) = run (step b c) cs

-- How many of the requests at these times are admitted, and the breaker afterwards.
pub admitted : Breaker → List ℕ → ℕ × Breaker
admitted b [] = (0, b)
admitted b (now ∷ ts) =
    let (b', ok) = try_acquire b now in
    let (n, last) = admitted b' ts in (if ok then n + 1 else n, last)
