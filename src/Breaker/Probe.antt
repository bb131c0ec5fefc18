-- ===== src/Breaker/Probe.antt =====
-- Breaker.antt: the requests that are let through to see whether the peer is back.
use ultra_net.Prelude.{ℕ, ◌+◌, ◌^◌, ◌<◌, ◌≤◌, ◌≡◌, List, [], ◌∷◌, arith, All, length, min, inc64}
use ultra_net.Breaker.{Breaker, open_state, half_open, open_ns, on_failure, try_acquire, admitted}
use ultra_net.Breaker.Invariant.{IsValid}
use ultra_net.Breaker.Trip.{admitted-open}

-- While a half-open breaker has let its request through and no outcome is reported, every request
-- is refused, at whatever time it comes.
pub admitted-half_open :
    (b : Breaker) (ts : List ℕ)
    → b.state ≡ half_open
    → 0 < b.half_open_used
    → b.half_open_used + length ts < 2 ^ 64
    → ((admitted b ts).0 ≡ 0) × ((admitted b ts).1.state ≡ half_open)
unfolding admitted try_acquire
admitted-half_open b [] h used fits = ground arith
admitted-half_open b (t ∷ ts) h used fits = ground (
  arith,
  admitted-half_open
      (record b {
        half_open_used = inc64 b.half_open_used;
        fast_fail_count = inc64 b.fast_fail_count;
      })
      ts,
)

after_probe :
    (b : Breaker) (ts : List ℕ)
    → b.state ≡ half_open
    → b.half_open_used ≡ 0
    → length ts < 2 ^ 64
    → ((admitted b ts).0 ≡ min 1 (length ts)) × ((admitted b ts).1.state ≡ half_open)
unfolding admitted try_acquire
after_probe b [] h used fits = ground arith
after_probe b (t ∷ ts) h used fits = ground (
  arith,
  admitted-half_open
      (record b {
        half_open_used = inc64 b.half_open_used;
        half_open_attempts = inc64 b.half_open_attempts;
      })
      ts,
)

-- Once an open breaker's timeout is over, it becomes half-open at the next request, and of that
-- request and those that follow with no outcome reported exactly the first two are let through.
pub admitted_after_timeout :
    (b : Breaker) (t : ℕ) (ts : List ℕ)
    → b.state ≡ open_state
    → IsValid b
    → b.last_failure_ns + open_ns b.config ≤ t
    → length ts < 2 ^ 64
    → ((admitted b (t ∷ ts)).0 ≡ min 2 (1 + length ts))
      × ((admitted b (t ∷ ts)).1.state ≡ half_open)
unfolding admitted try_acquire
admitted_after_timeout b t ts h v due fits = ground (
  arith,
  after_probe
      (record b {
        state = half_open;
        half_open_used = 0;
        half_open_attempts = inc64 b.half_open_attempts;
      })
      ts,
)

-- A failure reported to a half-open breaker opens it again, and starts the timeout anew: no request
-- before its end is let through.
pub reopened :
    (b : Breaker) (now : ℕ) (ts : List ℕ)
    → b.state ≡ half_open
    → All (λ t. t < now + open_ns b.config) ts
    → b.fast_fail_count + length ts < 2 ^ 64
    → ((on_failure b now).state ≡ open_state) × ((admitted (on_failure b now) ts).0 ≡ 0)
unfolding on_failure
reopened b now ts h early fits = ground (
  arith,
  admitted-open
      (record b {
        failure_count = inc64 b.failure_count;
        last_failure_ns = now;
        state = open_state;
      })
      ts,
)
