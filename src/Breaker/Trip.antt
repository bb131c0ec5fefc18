-- ===== src/Breaker/Trip.antt =====
-- Breaker.antt: when failures open the breaker, and what an open breaker lets through.
use ultra_net.Prelude.{
  ℕ, ◌+◌, ◌^◌, ◌<◌, ◌≡◌, List, [], ◌∷◌, map, arith, All, ltb, length, if◌then◌else◌, inc64,
}
use ultra_net.Breaker.{
  Breaker, closed, open_state, open_ns, on_failure, try_acquire, fails, step, run, admitted,
}
use ultra_net.Breaker.Invariant.{limit, IsValid}

run-fails_open :
    (b : Breaker) (ts : List ℕ) → b.state ≡ open_state → (run b (map fails ts)).state ≡ open_state
unfolding run step on_failure
run-fails_open b [] h = h
run-fails_open b (t ∷ ts) h = run-fails_open (on_failure b t) ts (ground arith)

counts_failures :
    (b : Breaker) (ts : List ℕ)
    → b.config.failure_threshold < 2 ^ 64
    → b.failure_count < limit b.config
    → b.state ≡ closed
    → (run b (map fails ts)).state
      ≡ (if ltb (b.failure_count + length ts) (limit b.config) then closed else open_state)
unfolding run step on_failure
counts_failures b [] fits below h = ground arith
counts_failures b (t ∷ ts) fits below h =
    ground (arith, counts_failures (on_failure b t) ts, run-fails_open (on_failure b t) ts)

-- A valid closed breaker that gets nothing but failures stays closed while their number, with those
-- counted before, is below the limit, and is open from the failure that reaches it on.
pub run-fails :
    (b : Breaker) (ts : List ℕ)
    → IsValid b
    → b.state ≡ closed
    → (run b (map fails ts)).state
      ≡ (if ltb (b.failure_count + length ts) (limit b.config) then closed else open_state)
run-fails b ts v h = counts_failures b ts v.fits (v.below_limit h) h

-- Every request before the timeout of an open breaker is refused, and counted as a fast failure;
-- nothing else changes.
pub admitted-open :
    (b : Breaker) (ts : List ℕ)
    → b.state ≡ open_state
    → All (λ t. t < b.last_failure_ns + open_ns b.config) ts
    → b.fast_fail_count + length ts < 2 ^ 64
    → admitted b ts ≡ (0, record b { fast_fail_count = b.fast_fail_count + length ts })
unfolding admitted try_acquire
admitted-open b [] h early fits = ground arith
admitted-open b (t ∷ ts) h (e, early) fits =
    ground (arith, admitted-open (record b { fast_fail_count = inc64 b.fast_fail_count }) ts)
