-- ===== src/CircuitBreaker/Counting.antt =====
-- The statistics of a breaker (django_smart_ratelimit/circuit_breaker.py, `CircuitBreakerStats`)
-- along its runs.
use django_smart_ratelimit.Prelude.{ℕ, List, [], ◌∷◌, arith}
use django_smart_ratelimit.CircuitBreaker.Stats.{
  CircuitBreakerState, closed, open_circuit, half_open, IsConsistent, new_stats-IsConsistent,
  record_failure, record_success-IsConsistent, record_failure-IsConsistent,
  record_state_change-IsConsistent,
}
use django_smart_ratelimit.CircuitBreaker.Breaker.{
  CircuitBreaker, CircuitBreakerConfig, new_breaker, key_name, state, change_state,
  check_reset_timeout, reserve, is_allowed, report_success, report_failure, reset,
}
use django_smart_ratelimit.CircuitBreaker.Storage.{increment_failure}
use django_smart_ratelimit.CircuitBreaker.Call.{refuse}
use django_smart_ratelimit.CircuitBreaker.Run.{
  Event, ask, succeed, fail, check, reset_now, turn_away, Run, step, run, start,
}

change_state-IsConsistent :
    (b : CircuitBreaker) (s : CircuitBreakerState) (now : ℕ)
    → IsConsistent b.stats
    → IsConsistent (change_state b s now).stats
unfolding change_state
change_state-IsConsistent b s now h =
    ground (arith, record_state_change-IsConsistent b.stats (state b) s now h)

counted-IsConsistent :
    (b : CircuitBreaker) (now : ℕ)
    → IsConsistent b.stats
    → IsConsistent (report_failure b now).stats
unfolding report_failure
counted-IsConsistent b now h =
    let b' : CircuitBreaker = record b {
      storage = (increment_failure b.storage (key_name b) now).0;
      stats = record_failure b.stats now;
    } in
    ground (
      arith,
      record_failure-IsConsistent b.stats now h,
      change_state-IsConsistent b' open_circuit now,
    )

step-IsConsistent :
    (r : Run) (e : Event) → IsConsistent r.breaker.stats → IsConsistent (step r e).breaker.stats
unfolding step
step-IsConsistent r (ask now) h =
    unfold is_allowed reserve in ground (arith, change_state-IsConsistent r.breaker half_open now)
step-IsConsistent r (succeed now) h =
    unfold report_success in
    ground (
      arith,
      change_state-IsConsistent r.breaker closed now,
      record_success-IsConsistent r.breaker.stats now,
      record_success-IsConsistent (change_state r.breaker closed now).stats now,
    )
step-IsConsistent r (fail now) h = counted-IsConsistent r.breaker now h
step-IsConsistent r (check now) h = unfold check_reset_timeout in ground arith
step-IsConsistent r (reset_now now) h =
    unfold reset in ground (arith, change_state-IsConsistent r.breaker closed now)
step-IsConsistent r (turn_away now) h =
    unfold refuse in record_failure-IsConsistent r.breaker.stats now h

run-IsConsistent :
    (r : Run) (es : List Event)
    → IsConsistent r.breaker.stats
    → IsConsistent (run r es).breaker.stats
unfolding run
run-IsConsistent r [] h = h
run-IsConsistent r (e ∷ es) h = run-IsConsistent (step r e) es (step-IsConsistent r e h)

-- After any sequence of steps of calls on a new breaker, refused ones among them, where no two
-- methods run at the same time, the calls counted are the successes and the failures counted, and
-- the history of state changes holds at most 100 of the changes counted.
pub stats-IsConsistent :
    (c : CircuitBreakerConfig) (es : List Event) → IsConsistent (run (start c) es).breaker.stats
unfolding start new_breaker
stats-IsConsistent c es = run-IsConsistent (start c) es new_stats-IsConsistent
