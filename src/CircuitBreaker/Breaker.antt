-- ===== src/CircuitBreaker/Breaker.antt =====
-- django_smart_ratelimit/circuit_breaker.py: `CircuitBreakerConfig` and the methods of
-- `CircuitBreaker`. Durations and times are whole clock ticks and the backoff multiplier is a
-- whole number (the default is 2.0). A method that reads the clock takes the reading as `now`.
-- Each method is a function of the breaker, as it runs while no other thread is in a method:
-- `is_allowed` holds the lock throughout, `report_success` and `report_failure` for all but the
-- statistics, and `_check_reset_timeout`, `reset` and `_change_state` take no lock of their own.
use django_smart_ratelimit.Prelude.{
  ℕ, ◌+◌, ◌-◌, ◌*◌, ◌^◌, Bool, true, false, ◌&&◌, Option, none, some, [], ◌∷◌, Text, text_key,
  codes, ltb, leb, nat_beq, min, if◌then◌else◌,
}
use django_smart_ratelimit.CircuitBreaker.Storage.{
  MemoryCircuitBreakerState, new_storage, get_failure_count, increment_failure, reset_failures,
  get_state, set_state, get_last_failure_time, increment_half_open_calls, reset_half_open_calls,
}
use django_smart_ratelimit.CircuitBreaker.Stats.{
  CircuitBreakerState, closed, open_circuit, half_open, value, of_value, state_ne,
  CircuitBreakerStats, new_stats, record_success, record_failure, record_state_change,
}

pub record CircuitBreakerConfig : Type 0 where
  pub failure_threshold : ℕ
  pub recovery_timeout : ℕ
  pub name : Text
  pub reset_timeout : ℕ
  pub half_open_max_calls : ℕ
  pub exponential_backoff_multiplier : ℕ
  pub exponential_backoff_max : ℕ

pub data ConfigError : Type 0 where
  bad_failure_threshold bad_recovery_timeout bad_reset_timeout : ConfigError

-- The validation at the end of `CircuitBreakerConfig.__init__`: the first check that fails.
unfoldable pub validate : CircuitBreakerConfig → Option ConfigError
validate c =
    if leb c.failure_threshold 0
    then some bad_failure_threshold
    else if leb c.recovery_timeout 0
    then some bad_recovery_timeout
    else if leb c.reset_timeout 0
    then some bad_reset_timeout
    else none

pub record CircuitBreaker : Type 0 where
  pub config : CircuitBreakerConfig
  pub storage : MemoryCircuitBreakerState
  pub stats : CircuitBreakerStats

unfoldable pub new_breaker : CircuitBreakerConfig → CircuitBreaker
unfolding new_storage new_stats
new_breaker c = record { config = c; storage = new_storage; stats = new_stats }

-- `self._config.name or "default"`
unfoldable pub key_name : CircuitBreaker → Text
key_name b = elim b.config.name [ [] ↦ codes "default" | _ ∷ _ ↦ b.config.name ]

unfoldable pub state : CircuitBreaker → CircuitBreakerState
state b = of_value (get_state b.storage (key_name b))

unfoldable pub failure_count : CircuitBreaker → ℕ
failure_count b = get_failure_count b.storage (key_name b)

unfoldable pub last_failure_time : CircuitBreaker → Option ℕ
last_failure_time b = get_last_failure_time b.storage (key_name b)

unfoldable pub calculate_backoff_time : CircuitBreaker → ℕ
calculate_backoff_time b =
    let count = failure_count b in
    if leb count b.config.failure_threshold
    then b.config.recovery_timeout
    else (let extra_failures = count - b.config.failure_threshold in
        min (b.config.recovery_timeout * b.config.exponential_backoff_multiplier ^ extra_failures)
          b.config.exponential_backoff_max)

-- `not last_failure`: the time 0 counts as no failure, as the float 0.0 is false.
unfoldable pub should_attempt_reset : CircuitBreaker → ℕ → Bool
should_attempt_reset b now = elim (last_failure_time b) [
  | none ↦ true
  | some last ↦ if nat_beq last 0 then true else leb (last + calculate_backoff_time b) now
]

unfoldable pub open_ttl : CircuitBreakerConfig → ℕ
open_ttl c = c.recovery_timeout * 2 + c.exponential_backoff_max

-- The storage writes of `_change_state`, without the test that the state differs.
unfoldable pub enter : CircuitBreaker → CircuitBreakerState → MemoryCircuitBreakerState
enter b closed = set_state b.storage (key_name b) (value closed) none
enter b open_circuit =
    set_state b.storage (key_name b) (value open_circuit) (some (open_ttl b.config))
enter b half_open =
    set_state (reset_half_open_calls b.storage (key_name b)) (key_name b) (value half_open) none

unfoldable pub change_state : CircuitBreaker → CircuitBreakerState → ℕ → CircuitBreaker
change_state b new_state now =
    let old_state = state b in
    if state_ne old_state new_state
    then record b {
      storage = enter b new_state;
      stats = record_state_change b.stats old_state new_state now;
    }
    else b

unfoldable pub check_reset_timeout : CircuitBreaker → ℕ → CircuitBreaker
check_reset_timeout b now = if state_ne (state b) closed then b else elim (last_failure_time b) [
  | none ↦ b
  | some last ↦
      if nat_beq last 0
      then b
      else if ltb (last + b.config.reset_timeout) now
      then record b { storage = reset_failures b.storage (key_name b) }
      else b
]

-- Reserve a slot of the half-open budget.
unfoldable pub reserve : CircuitBreaker → CircuitBreaker × Bool
reserve b =
    let (storage, count) = increment_half_open_calls b.storage (key_name b) in
    (record b { storage = storage }, leb count b.config.half_open_max_calls)

unfoldable pub is_allowed : CircuitBreaker → ℕ → CircuitBreaker × Bool
is_allowed b now = elim (state b) [
  | closed ↦ (b, true)
  | open_circuit ↦
      if should_attempt_reset b now then reserve (change_state b half_open now) else (b, false)
  | half_open ↦ reserve b
]

unfoldable pub report_success : CircuitBreaker → ℕ → CircuitBreaker
report_success b now =
    let b' : CircuitBreaker = elim (state b) [
      | half_open ↦
          (let c = change_state b closed now in
            record c { storage = reset_failures c.storage (key_name c) })
      | _ ↦ b
    ] in
    record b' { stats = record_success b'.stats now }

unfoldable pub report_failure : CircuitBreaker → ℕ → CircuitBreaker
report_failure b now =
    let (storage, new_count) = increment_failure b.storage (key_name b) now in
    let b' : CircuitBreaker = record b { storage = storage; stats = record_failure b.stats now } in
    if leb b.config.failure_threshold new_count && state_ne (state b') open_circuit
    then change_state b' open_circuit now
    else b'

unfoldable pub reset : CircuitBreaker → ℕ → CircuitBreaker
reset b now =
    let c = change_state b closed now in
    record c { storage = reset_failures c.storage (key_name c) }
