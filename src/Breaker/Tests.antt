-- ===== src/Breaker/Tests.antt =====
-- Breaker.antt at concrete inputs.
use ultra_net.Prelude.{◌≡◌, refl, [], ◌∷◌, map, arith}
use ultra_net.Breaker.{
  Config, Breaker, closed, open_state, half_open, init, try_acquire, on_failure, on_success, fails,
  acquires, succeeds, run, step, admitted,
}
use ultra_net.Breaker.Invariant.{IsValid, init-IsValid, run-IsValid}
use ultra_net.Breaker.Trip.{run-fails}
use ultra_net.Breaker.Probe.{admitted_after_timeout}

abbrev three_strikes : Config
three_strikes = record { failure_threshold = 3; open_timeout = 10 }

abbrev fresh : Breaker
fresh = record {
  config = three_strikes;
  state = closed;
  failure_count = 0;
  success_count = 0;
  fast_fail_count = 0;
  half_open_attempts = 0;
  half_open_used = 0;
  last_failure_ns = 0;
}

abbrev tripped : Breaker
tripped = record fresh { state = open_state; failure_count = 3; last_failure_ns = 5 }

abbrev probing : Breaker
probing = record tripped { state = half_open; half_open_used = 1 }

fresh-init : fresh ≡ init three_strikes
unfolding init
fresh-init = refl

trips : run fresh (map fails (3 ∷ 4 ∷ 5 ∷ [])) ≡ tripped
unfolding run step on_failure
trips = refl

closes : (run tripped (acquires 10000005 ∷ succeeds ∷ [])).state ≡ closed
unfolding run step try_acquire on_success
closes = refl

fresh-IsValid : IsValid fresh
unfolding init
fresh-IsValid = init-IsValid three_strikes (omega arith)

run-IsValid_example : IsValid (run fresh (fails 3 ∷ acquires 4 ∷ []))
run-IsValid_example = run-IsValid fresh (fails 3 ∷ acquires 4 ∷ []) (omega arith) fresh-IsValid

run-fails_example : (run fresh (map fails (3 ∷ 4 ∷ 5 ∷ []))).state ≡ open_state
run-fails_example = run-fails fresh (3 ∷ 4 ∷ 5 ∷ []) fresh-IsValid refl

tripped-IsValid : IsValid tripped
tripped-IsValid = ground arith

admitted_after_timeout_example :
    ((admitted tripped (10000005 ∷ 10000006 ∷ 10000007 ∷ [])).0 ≡ 2)
    × ((admitted tripped (10000005 ∷ 10000006 ∷ 10000007 ∷ [])).1.state ≡ half_open)
admitted_after_timeout_example =
    admitted_after_timeout tripped 10000005 (10000006 ∷ 10000007 ∷ []) refl tripped-IsValid
      (omega arith) (omega arith)
