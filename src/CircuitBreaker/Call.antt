-- ===== src/CircuitBreaker/Call.antt =====
-- django_smart_ratelimit/circuit_breaker.py: `call`, `call_with_fallback`, the context manager and
-- `get_status`. The protected function returns or raises, and hands on the breaker as it is when
-- it ends: itself, or what other threads did meanwhile, may have moved it. A method that reads
-- the clock more than once before the function runs takes one reading, `now`; `later` is the
-- reading when the function has ended.
use django_smart_ratelimit.Prelude.{
  ℕ, ◌+◌, ◌-◌, ◌≡◌, Bool, false, Option, none, some, arith, Text, leb, nat_beq, if◌then◌else◌,
}
use django_smart_ratelimit.CircuitBreaker.Stats.{CircuitBreakerState, open_circuit, record_failure}
use django_smart_ratelimit.CircuitBreaker.Breaker.{
  CircuitBreaker, state, failure_count, last_failure_time, calculate_backoff_time,
  check_reset_timeout, is_allowed, report_success, report_failure, should_attempt_reset,
}

-- The fields of `CircuitBreakerError` that the breaker fills.
pub record CircuitBreakerError : Type 0 where
  pub breaker_name : Text
  pub failures : ℕ
  pub last_failure : ℕ
  pub recovery_time : ℕ

-- What a call does: it returns, it raises the function's own exception, or it is refused.
pub data Outcome (E A : Type 0) : Type 0 where
  returned : A → Outcome E A
  raised : E → Outcome E A
  refused : CircuitBreakerError → Outcome E A

-- `self._last_failure_time or time.time()`
abbrev pub or_now : Option ℕ → ℕ → ℕ
or_now none now = now
or_now (some t) now = if nat_beq t 0 then now else t

unfoldable pub refusal : CircuitBreaker → ℕ → CircuitBreakerError
refusal b now =
    let last_fail = or_now (last_failure_time b) now in
    record {
      breaker_name = b.config.name;
      failures = failure_count b;
      last_failure = last_fail;
      recovery_time = last_fail + calculate_backoff_time b - now;
    }

-- `record_failure` and the error of a request that is not allowed.
unfoldable pub refuse : {E A : Type 0} → CircuitBreaker → ℕ → Outcome E A × CircuitBreaker
refuse b now =
    let b' : CircuitBreaker = record b { stats = record_failure b.stats now } in
    (refused (refusal b' now), b')

module _ {E A : Type 0} (expected : E → Bool) where
  -- The `try` of `call`. A refusal that the function raises, by a breaker of its own, is an
  -- exception like another: `expected_refusal` tells if the type listed covers it.
  unfoldable pub finish : Bool → Outcome E A × CircuitBreaker → ℕ → Outcome E A × CircuitBreaker
  finish expected_refusal (returned a, b) later = (returned a, report_success b later)
  finish expected_refusal (raised e, b) later =
      (raised e, if expected e then report_failure b later else b)
  finish expected_refusal (refused e, b) later =
      (refused e, if expected_refusal then report_failure b later else b)

  module _ (expected_refusal : Bool) where
    unfoldable pub call :
        (CircuitBreaker → Outcome E A × CircuitBreaker)
        → CircuitBreaker
        → ℕ
        → ℕ
        → Outcome E A × CircuitBreaker
    unfolding finish refuse
    call func b now later =
        let (b', allowed) = is_allowed (check_reset_timeout b now) now in
        if allowed then finish expected_refusal (func b') later else refuse b' now

    -- The fallback runs for every `CircuitBreakerError` that `call` raises.
    unfoldable pub call_with_fallback :
        Option (CircuitBreaker → Outcome E A × CircuitBreaker)
        → (CircuitBreaker → Outcome E A × CircuitBreaker)
        → CircuitBreaker
        → ℕ
        → ℕ
        → Outcome E A × CircuitBreaker
    unfolding call
    call_with_fallback fallback func b now later =
        let (out, b') = call func b now later in
        elim out [
          | refused e ↦ elim fallback [ none ↦ (refused e, b') | some f ↦ f b' ]
          | other ↦ (other, b')
        ]

    -- A request that is not allowed never reaches the function, whatever it is: the caller gets
    -- the refusal, and only the statistics change after the decision.
    pub call_refused :
        (func : CircuitBreaker → Outcome E A × CircuitBreaker) (b : CircuitBreaker) (now later : ℕ)
        → (is_allowed (check_reset_timeout b now) now).1 ≡ false
        → call func b now later ≡ refuse (is_allowed (check_reset_timeout b now) now).0 now
    unfolding call
    call_refused func b now later h = ground arith

-- What `get_status` says of a breaker, without its statistics; `half_open_calls` is always 0.
pub record Status : Type 0 where
  pub current : CircuitBreakerState
  pub failures : ℕ
  pub consecutive_failures : ℕ
  pub last_failure : Option ℕ
  pub next_attempt_time : Option ℕ
  pub backoff_time : ℕ

unfoldable pub get_status : CircuitBreaker → Status
get_status b = record {
  current = state b;
  failures = failure_count b;
  consecutive_failures = failure_count b - b.config.failure_threshold;
  last_failure = last_failure_time b;
  next_attempt_time = elim (state b) [
    | open_circuit ↦ elim (last_failure_time b) [
      | none ↦ none
      | some t ↦ if nat_beq t 0 then none else some (t + calculate_backoff_time b)
    ]
    | _ ↦ none
  ];
  backoff_time = calculate_backoff_time b;
}

-- The time that the status of an open circuit announces is the one from which a request is let
-- through to test the backend.
pub next_attempt_exact :
    (b : CircuitBreaker) (t now : ℕ)
    → (get_status b).next_attempt_time ≡ some t
    → (state b ≡ open_circuit) × (should_attempt_reset b now ≡ leb t now)
unfolding get_status should_attempt_reset
next_attempt_exact b t now h = ground arith

-- `__enter__`: it does not look at the reset timeout, as `call` does. `none` means entered.
unfoldable pub enter_context : CircuitBreaker → ℕ → Option CircuitBreakerError × CircuitBreaker
enter_context b now =
    let (b', allowed) = is_allowed b now in
    let r : CircuitBreaker = record b' { stats = record_failure b'.stats now } in
    if allowed then (none, b') else (some (refusal r now), r)

-- `__exit__`: the exception that leaves the block, if any, and whether its type is the listed one.
unfoldable pub exit_context :
    {E : Type 0} → (E → Bool) → Option E → CircuitBreaker → ℕ → CircuitBreaker
exit_context expected none b later = report_success b later
exit_context expected (some e) b later = if expected e then report_failure b later else b
