-- ===== src/CircuitBreaker/Run.antt =====
-- Sequences of calls of the methods of a breaker (django_smart_ratelimit/circuit_breaker.py), in any
-- order, each with its reading of the clock. One method ends before the next begins. Protected
-- functions may overlap, since between the steps of one `call` those of others may stand. Two
-- threads that are inside methods at once are not covered: `_check_reset_timeout` and `reset` take
-- no lock.
use django_smart_ratelimit.Prelude.{
  ℕ, ◌+◌, ◌≤◌, ◌≡◌, ◌⊎◌, refl, Bool, true, false, none, List, [], ◌∷◌, arith, if◌then◌else◌,
}
use django_smart_ratelimit.Prelude.Dict
use django_smart_ratelimit.CircuitBreaker.Storage.{
  get_state, get_failure_count, get_last_failure_time, get_half_open_calls,
}
use django_smart_ratelimit.CircuitBreaker.Stats.{of_value, CircuitBreakerState, closed, half_open}
use django_smart_ratelimit.CircuitBreaker.Breaker.{
  CircuitBreaker, CircuitBreakerConfig, new_breaker, state, check_reset_timeout, is_allowed,
  report_success, report_failure, reset, key_name,
}
use django_smart_ratelimit.CircuitBreaker.Call.{refuse}
use django_smart_ratelimit.CircuitBreaker.Spec.{View, view, observe}
use django_smart_ratelimit.CircuitBreaker.Refines.{
  view_state, is_allowed-refines, report_success-refines, report_failure-refines,
  check_reset_timeout-refines, reset-refines, config-is_allowed, config-report_success,
  config-report_failure, config-check_reset_timeout, config-reset,
}

-- `call` is `check` and `ask`, and then `turn_away` if the answer is no, and `succeed`, `fail` or
-- nothing, once the function has ended, if it is yes; `__enter__` is `ask`, and then `turn_away` if
-- the answer is no.
pub data Event : Type 0 where
  ask succeed fail check reset_now turn_away : ℕ → Event

-- A breaker, with the number of requests admitted since it last became half-open.
pub record Run : Type 0 where
  pub breaker : CircuitBreaker
  pub probes : ℕ

abbrev pub is_half_open : CircuitBreakerState → Bool
is_half_open half_open = true
is_half_open _ = false

-- `before` and `after` are the states around an answer `allowed`.
abbrev pub probes_after : CircuitBreakerState → CircuitBreakerState → Bool → ℕ → ℕ
probes_after before after allowed probes =
    if is_half_open after
    then (if is_half_open before then probes else 0) + (if allowed then 1 else 0)
    else 0

-- What `record_failure` does for a request that `call` turns away.
abbrev pub turned_away : CircuitBreaker → ℕ → CircuitBreaker
turned_away b now = (refuse {E = ℕ} {A = ℕ} b now).1

unfoldable pub step : Run → Event → Run
step r (ask now) =
    let (b, allowed) = is_allowed r.breaker now in
    record { breaker = b; probes = probes_after (state r.breaker) (state b) allowed r.probes }
step r (succeed now) = record r { breaker = report_success r.breaker now }
step r (fail now) = record r { breaker = report_failure r.breaker now }
step r (check now) = record r { breaker = check_reset_timeout r.breaker now }
step r (reset_now now) = record r { breaker = reset r.breaker now }
step r (turn_away now) = record r { breaker = turned_away r.breaker now }

unfoldable pub run : Run → List Event → Run
unfolding step
run r [] = r
run r (e ∷ es) = run (step r e) es

unfoldable pub start : CircuitBreakerConfig → Run
start c = record { breaker = new_breaker c; probes = 0 }

-- Every probe took a slot of the budget, and a circuit that is not closed has failed often enough.
pub record IsSound (c : CircuitBreakerConfig) (r : Run) : Type 0 where
  pub config : r.breaker.config ≡ c
  pub within :
      (view r.breaker).state ≡ half_open
      → (r.probes ≤ c.half_open_max_calls) × (r.probes ≤ (view r.breaker).calls)
  pub tripped :
      ((view r.breaker).state ≡ closed) ⊎ (c.failure_threshold ≤ (view r.breaker).failures)

abbrev pub fresh : View
fresh = record { state = closed; failures = 0; calls = 0; last_failure = none }

pub view-new_breaker : (c : CircuitBreakerConfig) → view (new_breaker c) ≡ fresh
unfolding new_breaker view observe of_value get_state get_failure_count get_last_failure_time
    get_half_open_calls Dict.get
view-new_breaker c = refl

pub start-IsSound : (c : CircuitBreakerConfig) → IsSound c (start c)
unfolding start
start-IsSound c = record {
  config = unfold new_breaker in refl;
  within = λ e. ground (arith, view-new_breaker c);
  tripped = ground (arith, view-new_breaker c);
}

view-turned_away : (b : CircuitBreaker) (now : ℕ) → view (turned_away b now) ≡ view b
unfolding refuse view key_name observe
view-turned_away b now = refl

step-IsSound : (c : CircuitBreakerConfig) (r : Run) (e : Event) → IsSound c r → IsSound c (step r e)
unfolding step
step-IsSound c r (ask now) h = record {
  config = ground (arith, config-is_allowed r.breaker now, h.config);
  within = λ e. ground (
    arith,
    is_allowed-refines r.breaker now,
    view_state r.breaker,
    view_state (is_allowed r.breaker now).0,
    h.within,
    h.config,
  );
  tripped = ground (arith, is_allowed-refines r.breaker now, h.tripped);
}
step-IsSound c r (succeed now) h = record {
  config = ground (arith, config-report_success r.breaker now, h.config);
  within = λ e. ground (arith, report_success-refines r.breaker now, h.within);
  tripped = ground (arith, report_success-refines r.breaker now, h.tripped);
}
step-IsSound c r (fail now) h = record {
  config = ground (arith, config-report_failure r.breaker now, h.config);
  within = λ e. ground (arith, report_failure-refines r.breaker now, h.within);
  tripped = ground (arith, report_failure-refines r.breaker now, h.tripped, h.config);
}
step-IsSound c r (check now) h = record {
  config = ground (arith, config-check_reset_timeout r.breaker now, h.config);
  within = λ e. ground (arith, check_reset_timeout-refines r.breaker now, h.within);
  tripped = ground (arith, check_reset_timeout-refines r.breaker now, h.tripped);
}
step-IsSound c r (reset_now now) h = record {
  config = ground (arith, config-reset r.breaker now, h.config);
  within = λ e. ground (arith, reset-refines r.breaker now, h.within);
  tripped = ground (arith, reset-refines r.breaker now, h.tripped);
}
step-IsSound c r (turn_away now) h = record {
  config = unfold refuse in h.config;
  within =
      λ e. rw (view-turned_away r.breaker now) (h.within (rw⁻¹ (view-turned_away r.breaker now) e));
  tripped = rw (view-turned_away r.breaker now) h.tripped;
}

pub run-IsSound :
    (c : CircuitBreakerConfig) (r : Run) (es : List Event) → IsSound c r → IsSound c (run r es)
unfolding run
run-IsSound c r [] h = h
run-IsSound c r (e ∷ es) h = run-IsSound c (step r e) es (step-IsSound c r e h)
