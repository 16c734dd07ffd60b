-- ===== src/CircuitBreaker/Tests.antt =====
-- The theorems on circuit breakers (django_smart_ratelimit/circuit_breaker.py) at concrete inputs,
-- and runs of the methods.
use django_smart_ratelimit.Prelude.{
  ℕ, ◌≤◌, ◌≡◌, ◌≢◌, refl, sym, ◌∙◌, false, none, some, List, [], ◌∷◌, arith, text_key, codes, leb,
}
use django_smart_ratelimit.Prelude.Dict
use django_smart_ratelimit.CircuitBreaker.Storage.{
  new_storage, get_failure_count, increment_failure, reset_failures, get_state, set_state,
  get_last_failure_time, get_half_open_calls, increment_half_open_calls, reset_half_open_calls,
}
use django_smart_ratelimit.CircuitBreaker.Stats.{
  closed, open_circuit, half_open, of_value, new_stats, record_success, record_failure,
  record_state_change, IsConsistent,
}
use django_smart_ratelimit.CircuitBreaker.Breaker.{
  CircuitBreaker, CircuitBreakerConfig, new_breaker, key_name, state, failure_count,
  last_failure_time, calculate_backoff_time, should_attempt_reset, enter, open_ttl, change_state,
  check_reset_timeout, reserve, is_allowed, report_success, report_failure, validate,
}
use django_smart_ratelimit.CircuitBreaker.Spec.{view, spec_allowed}
use django_smart_ratelimit.CircuitBreaker.Refines.{is_allowed-refines}
use django_smart_ratelimit.CircuitBreaker.Run.{Event, ask, fail, step, run, start}
use django_smart_ratelimit.CircuitBreaker.Laws.{
  half_open_budget, failure_reopens, fail_all, trips_at_threshold, open_recovers,
}
use django_smart_ratelimit.CircuitBreaker.Counting.{stats-IsConsistent}
use django_smart_ratelimit.CircuitBreaker.Call.{Outcome, returned, get_status}

abbrev config : CircuitBreakerConfig
config = record {
  failure_threshold = 2;
  recovery_timeout = 10;
  name = codes "db";
  reset_timeout = 100;
  half_open_max_calls = 1;
  exponential_backoff_multiplier = 2;
  exponential_backoff_max = 60;
}

-- A breaker that has been tripped at time 5, and one that is half-open since time 15.
abbrev tripped : CircuitBreaker
tripped = fail_all (new_breaker config) (3 ∷ 5 ∷ [])

abbrev probing : CircuitBreaker
probing = (is_allowed tripped 15).0

abbrev events : List Event
events = fail 3 ∷ fail 5 ∷ ask 15 ∷ ask 16 ∷ []

-- What a test has to see through.
execution : ℕ
unfolding new_storage get_failure_count increment_failure reset_failures get_state set_state
    get_last_failure_time get_half_open_calls increment_half_open_calls reset_half_open_calls
    of_value new_stats record_success record_failure record_state_change new_breaker key_name state
    failure_count last_failure_time calculate_backoff_time should_attempt_reset enter open_ttl
    change_state check_reset_timeout reserve is_allowed report_success report_failure fail_all step
    run start get_status Dict.get Dict.put
execution = 0

config_valid : validate config ≡ none
unfolding validate
config_valid = refl

tripped_state : state tripped ≡ open_circuit
unfolding execution
tripped_state = refl

probing_state : state probing ≡ half_open
unfolding execution
probing_state = refl

second_probe_refused : (is_allowed probing 16).1 ≡ false
unfolding execution
second_probe_refused = refl

events_state : state (run (start config) events).breaker ≡ half_open
unfolding execution
events_state = refl

tripped_last : last_failure_time tripped ≡ some 5
unfolding execution
tripped_last = refl

tripped_backoff : calculate_backoff_time tripped ≡ 10
unfolding execution
tripped_backoff = refl

half_open_budget_example : (run (start config) events).probes ≤ 1
half_open_budget_example = half_open_budget config events events_state

half_open≢closed : half_open ≢ closed
half_open≢closed e = cc

failure_reopens_example :
    state (report_failure (run (start config) events).breaker 20) ≡ open_circuit
failure_reopens_example =
    failure_reopens config events 20 (λ e. half_open≢closed (sym events_state ∙ e))

trips_at_threshold_example : state tripped ≡ open_circuit
trips_at_threshold_example = trips_at_threshold config (3 ∷ 5 ∷ []) (omega arith)

is_allowed-refines_example :
    (view probing
      ≡ (spec_allowed tripped.config (should_attempt_reset tripped 15) (view tripped)).0)
    × ((is_allowed tripped 15).1
        ≡ (spec_allowed tripped.config (should_attempt_reset tripped 15) (view tripped)).1)
is_allowed-refines_example = is_allowed-refines tripped 15

open_recovers_example :
    (state (is_allowed tripped 15).0 ≡ half_open)
    × ((is_allowed tripped 15).1 ≡ leb 1 tripped.config.half_open_max_calls)
open_recovers_example =
    open_recovers tripped 5 15 tripped_state tripped_last (omega (arith, tripped_backoff))

stats-IsConsistent_example : IsConsistent (run (start config) events).breaker.stats
stats-IsConsistent_example = stats-IsConsistent config events

abbrev answer : CircuitBreaker → Outcome ℕ ℕ × CircuitBreaker
answer b = (returned 7, b)

tripped_refuses : (is_allowed (check_reset_timeout tripped 14) 14).1 ≡ false
unfolding execution
tripped_refuses = refl

tripped_next : (get_status tripped).next_attempt_time ≡ some 15
unfolding execution
tripped_next = refl

names_differ : codes "db" ≢ codes "cache"
names_differ e = cc
