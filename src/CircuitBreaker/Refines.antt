-- ===== src/CircuitBreaker/Refines.antt =====
-- The methods of `CircuitBreaker` (django_smart_ratelimit/circuit_breaker.py) against the
-- contract of CircuitBreaker/Spec.
use django_smart_ratelimit.Prelude.{
  ℕ, ◌+◌, ◌≡◌, refl, true, false, none, some, arith, text_key, if◌then◌else◌, Bool-cases, inl, inr,
  ◌+◌,
}
use django_smart_ratelimit.CircuitBreaker.Storage.{
  increment_failure, reset_failures, reset_half_open_calls, count-increment_failure,
  count-increment_half_open_calls,
}
use django_smart_ratelimit.CircuitBreaker.Stats.{
  CircuitBreakerState, CircuitBreakerStats, closed, open_circuit, half_open, state_ne,
  record_success, record_failure,
}
use django_smart_ratelimit.CircuitBreaker.Breaker.{
  CircuitBreaker, key_name, state, failure_count, last_failure_time, should_attempt_reset, enter,
  open_ttl, change_state, check_reset_timeout, reserve, is_allowed, report_success, report_failure,
  reset,
}
use django_smart_ratelimit.CircuitBreaker.Spec.{
  View, observe, view, spec_reserve, spec_allowed, spec_success, spec_failure, spec_reset,
  spec_check, observe-increment_half_open_calls, observe-reset_half_open_calls, observe-set_state,
  observe-reset_failures, observe-increment_failure,
}

module _ (b : CircuitBreaker) where
  config-change_state :
      (s : CircuitBreakerState) (now : ℕ) → (change_state b s now).config ≡ b.config
  unfolding change_state
  config-change_state s now = ground arith

  pub view_state : (view b).state ≡ state b
  unfolding view observe state
  view_state = refl

  pub view_failures : (view b).failures ≡ failure_count b
  unfolding view observe failure_count
  view_failures = refl

  view_last_failure : (view b).last_failure ≡ last_failure_time b
  unfolding view observe last_failure_time
  view_last_failure = refl

  view-reserve : view (reserve b).0 ≡ (spec_reserve b.config (view b)).0
  unfolding view reserve key_name
  view-reserve = observe-increment_half_open_calls b.storage (key_name b)

  allowed-reserve : (reserve b).1 ≡ (spec_reserve b.config (view b)).1
  unfolding reserve view observe
  allowed-reserve = ground (arith, count-increment_half_open_calls b.storage (key_name b))

  observe-enter_half_open :
      observe (enter b half_open) (key_name b) ≡ record (view b) { state = half_open; calls = 0 }
  unfolding enter view
  observe-enter_half_open = ground (
    arith,
    observe-set_state (reset_half_open_calls b.storage (key_name b)) (key_name b) half_open none,
    observe-reset_half_open_calls b.storage (key_name b),
  )

  observe-enter_closed : observe (enter b closed) (key_name b) ≡ record (view b) { state = closed }
  unfolding enter view
  observe-enter_closed = observe-set_state b.storage (key_name b) closed none

  observe-enter_open :
      observe (enter b open_circuit) (key_name b) ≡ record (view b) { state = open_circuit }
  unfolding enter view
  observe-enter_open =
      observe-set_state b.storage (key_name b) open_circuit (some (open_ttl b.config))

-- A change of state, as the contract sees it.
abbrev entered : CircuitBreakerState → View → View
entered half_open v =
    if state_ne v.state half_open then record v { state = half_open; calls = 0 } else v
entered closed v = record v { state = closed }
entered open_circuit v = record v { state = open_circuit }

same_state : (v : View) (s : CircuitBreakerState) → state_ne v.state s ≡ false → v.state ≡ s
same_state v closed h = ground arith
same_state v open_circuit h = ground arith
same_state v half_open h = ground arith

observe-enter :
    (b : CircuitBreaker) (s : CircuitBreakerState)
    → state_ne (state b) s ≡ true
    → observe (enter b s) (key_name b) ≡ entered s (view b)
observe-enter b closed h = observe-enter_closed b
observe-enter b open_circuit h = observe-enter_open b
observe-enter b half_open h = rw (view_state b, h) (observe-enter_half_open b)

entered_same : (v : View) (s : CircuitBreakerState) → state_ne v.state s ≡ false → v ≡ entered s v
entered_same v closed h = ground (arith, same_state v closed)
entered_same v open_circuit h = ground (arith, same_state v open_circuit)
entered_same v half_open h = rw h

view-change_state :
    (b : CircuitBreaker) (s : CircuitBreakerState) (now : ℕ)
    → view (change_state b s now) ≡ entered s (view b)
view-change_state b s now = elim (Bool-cases (state_ne (state b) s)) [
  | inl differs ↦
      unfold change_state in rw differs (unfold view key_name in observe-enter b s differs)
  | inr same ↦ unfold change_state in rw same (entered_same (view b) s (rw view_state same))
]

-- `is_allowed` makes the contract's transition and gives its answer, in every state: a closed
-- circuit allows, an open one that is not ready refuses, and otherwise a slot is asked for.
pub is_allowed-refines :
    (b : CircuitBreaker) (now : ℕ)
    → (view (is_allowed b now).0 ≡ (spec_allowed b.config (should_attempt_reset b now) (view b)).0)
      × ((is_allowed b now).1 ≡ (spec_allowed b.config (should_attempt_reset b now) (view b)).1)
unfolding is_allowed
is_allowed-refines b now = ground (
  arith,
  view_state b,
  view-reserve b,
  allowed-reserve b,
  view-change_state b half_open now,
  config-change_state b half_open now,
  view-reserve (change_state b half_open now),
  allowed-reserve (change_state b half_open now),
)

view-reset_failures :
    (b : CircuitBreaker)
    → view (record b { storage = reset_failures b.storage (key_name b) })
      ≡ record (view b) { failures = 0 }
unfolding view key_name
view-reset_failures b = observe-reset_failures b.storage (key_name b)

pub reset-refines : (b : CircuitBreaker) (now : ℕ) → view (reset b now) ≡ spec_reset (view b)
unfolding reset
reset-refines b now =
    ground (arith, view-reset_failures (change_state b closed now), view-change_state b closed now)

-- `check_reset_timeout` forgets the failures exactly when the contract does: while closed, once
-- the reset timeout has passed since a last failure.
pub check_reset_timeout-refines :
    (b : CircuitBreaker) (now : ℕ)
    → view (check_reset_timeout b now) ≡ spec_check b.config now (view b)
unfolding check_reset_timeout
check_reset_timeout-refines b now =
    ground (arith, view_state b, view_last_failure b, view-reset_failures b)

-- The statistics play no part in what the contract sees.
view_stats :
    (b : CircuitBreaker) (stats : CircuitBreakerStats) → view (record b { stats = stats }) ≡ view b
unfolding view key_name
view_stats b stats = refl

-- `report_success` is the contract's: it closes a half-open circuit with no failures, and leaves
-- the rest of what the contract sees alone.
pub report_success-refines :
    (b : CircuitBreaker) (now : ℕ) → view (report_success b now) ≡ spec_success (view b)
unfolding report_success
report_success-refines b now =
    let c = change_state b closed now in
    let d : CircuitBreaker = record c { storage = reset_failures c.storage (key_name c) } in
    ground (
      arith,
      view_state b,
      view_stats b (record_success b.stats now),
      view_stats d (record_success d.stats now),
      view-reset_failures c,
      view-change_state b closed now,
    )

-- A failure that has been counted, before the threshold is looked at.
counted : CircuitBreaker → ℕ → CircuitBreaker
counted b now = record b {
  storage = (increment_failure b.storage (key_name b) now).0;
  stats = record_failure b.stats now;
}

view-counted :
    (b : CircuitBreaker) (now : ℕ)
    → view (counted b now)
      ≡ record (view b) { failures = (view b).failures + 1; last_failure = some now }
unfolding counted view key_name
view-counted b now = observe-increment_failure b.storage (key_name b) now

count_failure :
    (b : CircuitBreaker) (now : ℕ)
    → (increment_failure b.storage (key_name b) now).1 ≡ (view b).failures + 1
unfolding view observe
count_failure b now = count-increment_failure b.storage (key_name b) now

-- `report_failure` is the contract's: it counts the failure and its time, and opens the circuit
-- when the count has reached the threshold.
pub report_failure-refines :
    (b : CircuitBreaker) (now : ℕ)
    → view (report_failure b now) ≡ spec_failure b.config now (view b)
unfolding report_failure counted
report_failure-refines b now = ground (
  arith,
  count_failure b now,
  view_state (counted b now),
  view-counted b now,
  view-change_state (counted b now) open_circuit now,
  same_state (view (counted b now)) open_circuit,
)

pub config-is_allowed : (b : CircuitBreaker) (now : ℕ) → (is_allowed b now).0.config ≡ b.config
unfolding is_allowed reserve
config-is_allowed b now = ground (arith, config-change_state b half_open now)

pub config-report_success :
    (b : CircuitBreaker) (now : ℕ) → (report_success b now).config ≡ b.config
unfolding report_success
config-report_success b now = ground (arith, config-change_state b closed now)

pub config-report_failure :
    (b : CircuitBreaker) (now : ℕ) → (report_failure b now).config ≡ b.config
unfolding report_failure counted
config-report_failure b now = ground (arith, config-change_state (counted b now) open_circuit now)

pub config-check_reset_timeout :
    (b : CircuitBreaker) (now : ℕ) → (check_reset_timeout b now).config ≡ b.config
unfolding check_reset_timeout
config-check_reset_timeout b now = ground arith

pub config-reset : (b : CircuitBreaker) (now : ℕ) → (reset b now).config ≡ b.config
unfolding reset
config-reset b now = ground (arith, config-change_state b closed now)
