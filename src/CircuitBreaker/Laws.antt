-- ===== src/CircuitBreaker/Laws.antt =====
-- What a client of `CircuitBreaker` (django_smart_ratelimit/circuit_breaker.py) may rely on.
use native.Mathlib.Nat.{pow-le-pow_right, one-le-pow, mul-le-mul_left}
use django_smart_ratelimit.Prelude.{
  ℕ, ◌+◌, ◌*◌, ◌^◌, ◌-◌, ◌≤◌, ◌<◌, ◌≡◌, ◌≢◌, refl, true, false, some, List, [], ◌∷◌, arith, leb,
  length, if◌then◌else◌,
}
use django_smart_ratelimit.CircuitBreaker.Stats.{closed, open_circuit, half_open}
use django_smart_ratelimit.CircuitBreaker.Breaker.{
  CircuitBreaker, CircuitBreakerConfig, new_breaker, state, failure_count, last_failure_time,
  calculate_backoff_time, should_attempt_reset, is_allowed, report_success, report_failure,
}
use django_smart_ratelimit.CircuitBreaker.Spec.{view}
use django_smart_ratelimit.CircuitBreaker.Refines.{
  view_state, view_failures, is_allowed-refines, report_success-refines, report_failure-refines,
  config-report_failure,
}
use django_smart_ratelimit.CircuitBreaker.Run.{
  Event, run, start, start-IsSound, run-IsSound, view-new_breaker,
}

-- From a new breaker, whatever methods are called and whatever the clock reads, where no two methods
-- run at the same time, while the circuit is half-open it has admitted at most
-- `half_open_max_calls` requests since it became half-open.
pub half_open_budget :
    (c : CircuitBreakerConfig) (es : List Event)
    → state (run (start c) es).breaker ≡ half_open
    → (run (start c) es).probes ≤ c.half_open_max_calls
half_open_budget c es h =
    ((run-IsSound c (start c) es (start-IsSound c)).within (rw view_state h)).0

-- After any calls of the methods of a new breaker, no two of which run at the same time, one failed
-- request while the circuit is not closed leaves it open.
pub failure_reopens :
    (c : CircuitBreakerConfig) (es : List Event) (now : ℕ)
    → state (run (start c) es).breaker ≢ closed
    → state (report_failure (run (start c) es).breaker now) ≡ open_circuit
failure_reopens c es now h =
    let b = (run (start c) es).breaker in
    let sound = run-IsSound c (start c) es (start-IsSound c) in
    ground (
      arith,
      sound.tripped,
      sound.config,
      report_failure-refines b now,
      view_state b,
      view_state (report_failure b now),
    )

-- The requests that failed at the given times, one after the other.
unfoldable pub fail_all : CircuitBreaker → List ℕ → CircuitBreaker
fail_all b [] = b
fail_all b (now ∷ times) = fail_all (report_failure b now) times

trips_from :
    (c : CircuitBreakerConfig) (b : CircuitBreaker) (times : List ℕ)
    → 0 < c.failure_threshold
    → b.config ≡ c
    → (view b).state ≡ (if leb c.failure_threshold (view b).failures then open_circuit else closed)
    → (view (fail_all b times)).state ≡ (
        if leb c.failure_threshold ((view b).failures + length times) then open_circuit else closed)
unfolding fail_all
trips_from c b [] pos e h = ground arith
trips_from c b (now ∷ times) pos e h = ground (
  arith,
  report_failure-refines b now,
  trips_from c (report_failure b now) times pos (ground (arith, config-report_failure b now))
      (ground (arith, report_failure-refines b now)),
)

-- Failures alone trip a new breaker exactly when there are `failure_threshold` of them: before
-- that it is closed, and from then on it is open.
pub trips_at_threshold :
    (c : CircuitBreakerConfig) (times : List ℕ)
    → 0 < c.failure_threshold
    → state (fail_all (new_breaker c) times)
      ≡ (if leb c.failure_threshold (length times) then open_circuit else closed)
trips_at_threshold c times pos =
    let b = new_breaker c in
    ground (
      arith,
      view-new_breaker c,
      view_state (fail_all b times),
      trips_from c b times pos (unfold new_breaker in refl) (ground (arith, view-new_breaker c)),
    )

-- An open circuit refuses every request until the backoff has passed since the last failure, and
-- a refusal changes nothing.
pub open_refuses :
    (b : CircuitBreaker) (last now : ℕ)
    → state b ≡ open_circuit
    → last_failure_time b ≡ some last
    → 0 < last
    → now < last + calculate_backoff_time b
    → is_allowed b now ≡ (b, false)
unfolding is_allowed should_attempt_reset
open_refuses b last now o e pos early = ground arith

-- Once the backoff has passed, an open circuit becomes half-open; the request is admitted if the
-- half-open budget is not zero.
pub open_recovers :
    (b : CircuitBreaker) (last now : ℕ)
    → state b ≡ open_circuit
    → last_failure_time b ≡ some last
    → last + calculate_backoff_time b ≤ now
    → (state (is_allowed b now).0 ≡ half_open)
      × ((is_allowed b now).1 ≡ leb 1 b.config.half_open_max_calls)
open_recovers b last now o e late =
    let ready : should_attempt_reset b now ≡ true = unfold should_attempt_reset in ground arith in
    let (seen, answer) = is_allowed-refines b now in
    (
      ground (arith, seen, ready, view_state b, view_state (is_allowed b now).0),
      ground (arith, answer, ready, view_state b),
    )

-- A success while half-open closes the circuit and forgets the failures; in the other states it
-- changes neither.
pub success_closes :
    (b : CircuitBreaker) (now : ℕ)
    → (state (report_success b now) ≡ (elim (state b) [ half_open ↦ closed | s ↦ s ]))
      × (failure_count (report_success b now)
          ≡ (elim (state b) [ half_open ↦ 0 | _ ↦ failure_count b ]))
success_closes b now = (
  ground (arith, view_state b, view_state (report_success b now), report_success-refines b now),
  ground (
    arith,
    view_state b,
    view_failures b,
    view_failures (report_success b now),
    report_success-refines b now,
  ),
)

-- Where the recovery timeout does not pass the maximum and the multiplier is positive, the
-- backoff lies between the two and never falls as failures add up.
pub backoff_monotone :
    (b d : CircuitBreaker)
    → b.config ≡ d.config
    → 0 < b.config.exponential_backoff_multiplier
    → b.config.recovery_timeout ≤ b.config.exponential_backoff_max
    → failure_count b ≤ failure_count d
    → (b.config.recovery_timeout ≤ calculate_backoff_time b)
      × (calculate_backoff_time b ≤ calculate_backoff_time d)
      × (calculate_backoff_time d ≤ b.config.exponential_backoff_max)
unfolding calculate_backoff_time
backoff_monotone b d e pos fits more =
    let m = b.config.exponential_backoff_multiplier in
    let i = failure_count b - b.config.failure_threshold in
    let j = failure_count d - b.config.failure_threshold in
    let r = b.config.recovery_timeout in
    let grow : r * m ^ i ≤ r * m ^ j = mul-le-mul_left r (pow-le-pow_right pos (omega arith)) in
    let base : r * 1 ≤ r * m ^ i = mul-le-mul_left r (one-le-pow i m pos) in ground arith
