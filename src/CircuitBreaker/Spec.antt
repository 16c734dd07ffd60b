-- ===== src/CircuitBreaker/Spec.antt =====
-- The contract of a circuit breaker: a machine over four values, with no storage, names, strings
-- or statistics. The methods of `CircuitBreaker` (django_smart_ratelimit/circuit_breaker.py)
-- implement it (CircuitBreaker/Refines).
use django_smart_ratelimit.Prelude.{
  ℕ, ◌+◌, ◌≡◌, Bool, true, false, ◌&&◌, not, Option, none, some, arith, Text, text_key, ltb, leb,
  nat_beq, if◌then◌else◌,
}
use django_smart_ratelimit.CircuitBreaker.Storage.{
  MemoryCircuitBreakerState, get_failure_count, increment_failure, reset_failures, get_state,
  set_state, get_last_failure_time, get_half_open_calls, increment_half_open_calls,
  reset_half_open_calls, failure_count-increment_failure, last_failure-increment_failure,
  failure_count-reset_failures, state-set_state, calls-increment_half_open_calls,
  calls-reset_half_open_calls,
}
use django_smart_ratelimit.CircuitBreaker.Stats.{
  CircuitBreakerState, closed, open_circuit, half_open, value, of_value, of_value-value, state_ne,
}
use django_smart_ratelimit.CircuitBreaker.Breaker.{CircuitBreaker, CircuitBreakerConfig, key_name}

pub record View : Type 0 where
  pub state : CircuitBreakerState
  pub failures : ℕ
  pub calls : ℕ
  pub last_failure : Option ℕ

-- What a storage holds about one breaker.
unfoldable pub observe : MemoryCircuitBreakerState → Text → View
observe s name = record {
  state = of_value (get_state s name);
  failures = get_failure_count s name;
  calls = get_half_open_calls s name;
  last_failure = get_last_failure_time s name;
}

unfoldable pub view : CircuitBreaker → View
view b = observe b.storage (key_name b)

-- One slot of the half-open budget.
abbrev pub spec_reserve : CircuitBreakerConfig → View → View × Bool
spec_reserve c v = (record v { calls = v.calls + 1 }, leb (v.calls + 1) c.half_open_max_calls)

-- `ready` says that the backoff has passed.
abbrev pub spec_allowed : CircuitBreakerConfig → Bool → View → View × Bool
spec_allowed c ready v = elim v.state [
  | closed ↦ (v, true)
  | open_circuit ↦
      if ready then spec_reserve c (record v { state = half_open; calls = 0 }) else (v, false)
  | half_open ↦ spec_reserve c v
]

abbrev pub spec_success : View → View
spec_success v = elim v.state [ half_open ↦ record v { state = closed; failures = 0 } | _ ↦ v ]

abbrev pub spec_failure : CircuitBreakerConfig → ℕ → View → View
spec_failure c now v = record v {
  state = if leb c.failure_threshold (v.failures + 1) then open_circuit else v.state;
  failures = v.failures + 1;
  last_failure = some now;
}

-- Failures older than the reset timeout are forgotten while the circuit is closed.
abbrev pub spec_check : CircuitBreakerConfig → ℕ → View → View
spec_check c now v = elim v.last_failure [
  | none ↦ v
  | some last ↦
      if not (state_ne v.state closed) && not (nat_beq last 0) && ltb (last + c.reset_timeout) now
      then record v { failures = 0 }
      else v
]

abbrev pub spec_reset : View → View
spec_reset v = record v { state = closed; failures = 0 }

-- Each write to the storage, as the contract sees it.
module _ (s : MemoryCircuitBreakerState) (name : Text) where
  pub observe-increment_half_open_calls :
      observe (increment_half_open_calls s name).0 name
      ≡ record (observe s name) { calls = (observe s name).calls + 1 }
  unfolding observe
  observe-increment_half_open_calls =
      unfold get_state get_failure_count get_last_failure_time increment_half_open_calls in
      ground (arith, calls-increment_half_open_calls s name)

  pub observe-reset_half_open_calls :
      observe (reset_half_open_calls s name) name ≡ record (observe s name) { calls = 0 }
  unfolding observe
  observe-reset_half_open_calls =
      unfold get_state get_failure_count get_last_failure_time reset_half_open_calls in
      ground (arith, calls-reset_half_open_calls s name)

  pub observe-set_state :
      (t : CircuitBreakerState) (ttl : Option ℕ)
      → observe (set_state s name (value t) ttl) name ≡ record (observe s name) { state = t }
  unfolding observe
  observe-set_state t ttl =
      unfold get_half_open_calls get_failure_count get_last_failure_time set_state in
      ground (arith, state-set_state s name (value t) ttl, of_value-value t)

  pub observe-reset_failures :
      observe (reset_failures s name) name ≡ record (observe s name) { failures = 0 }
  unfolding observe
  observe-reset_failures =
      unfold get_half_open_calls get_state get_last_failure_time reset_failures in
      ground (arith, failure_count-reset_failures s name)

  pub observe-increment_failure :
      (now : ℕ)
      → observe (increment_failure s name now).0 name ≡ record (observe s name) {
        failures = (observe s name).failures + 1;
        last_failure = some now;
      }
  unfolding observe
  observe-increment_failure now =
      unfold get_half_open_calls get_state increment_failure in
      ground (
        arith,
        failure_count-increment_failure s name now,
        last_failure-increment_failure s name now,
      )
