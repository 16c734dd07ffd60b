-- ===== src/CircuitBreaker/Storage.antt =====
-- django_smart_ratelimit/circuit_breaker_state.py: `MemoryCircuitBreakerState`, the per-process
-- storage. Each method holds the lock for its whole body, so it is one step. A time is a number
-- of clock ticks.
use django_smart_ratelimit.Prelude.{
  ℕ, ◌+◌, ◌≡◌, Option, some, [], arith, Text, text_key, codes, get_or,
}
use django_smart_ratelimit.Prelude.Dict.{Dict}
use django_smart_ratelimit.Prelude.Dict

pub record MemoryCircuitBreakerState : Type 0 where
  pub failures : Dict Text ℕ
  pub states : Dict Text Text
  pub last_failures : Dict Text ℕ
  pub half_open_calls : Dict Text ℕ

unfoldable pub new_storage : MemoryCircuitBreakerState
new_storage = record { failures = []; states = []; last_failures = []; half_open_calls = [] }

unfoldable pub get_failure_count : MemoryCircuitBreakerState → Text → ℕ
get_failure_count s name = get_or (Dict.get s.failures name) 0

unfoldable pub increment_failure :
    MemoryCircuitBreakerState → Text → ℕ → MemoryCircuitBreakerState × ℕ
increment_failure s name now =
    let failures = Dict.put s.failures name (get_or (Dict.get s.failures name) 0 + 1) in
    let s' : MemoryCircuitBreakerState = record s {
      failures = failures;
      last_failures = Dict.put s.last_failures name now;
    } in
    (s', get_or (Dict.get failures name) 0)

unfoldable pub reset_failures : MemoryCircuitBreakerState → Text → MemoryCircuitBreakerState
reset_failures s name = record s { failures = Dict.put s.failures name 0 }

unfoldable pub get_state : MemoryCircuitBreakerState → Text → Text
get_state s name = get_or (Dict.get s.states name) (codes "closed")

-- The memory storage ignores the ttl.
unfoldable pub set_state :
    MemoryCircuitBreakerState → Text → Text → Option ℕ → MemoryCircuitBreakerState
set_state s name state ttl = record s { states = Dict.put s.states name state }

unfoldable pub get_last_failure_time : MemoryCircuitBreakerState → Text → Option ℕ
get_last_failure_time s name = Dict.get s.last_failures name

unfoldable pub get_half_open_calls : MemoryCircuitBreakerState → Text → ℕ
get_half_open_calls s name = get_or (Dict.get s.half_open_calls name) 0

unfoldable pub increment_half_open_calls :
    MemoryCircuitBreakerState → Text → MemoryCircuitBreakerState × ℕ
increment_half_open_calls s name =
    let calls = Dict.put s.half_open_calls name (get_or (Dict.get s.half_open_calls name) 0 + 1) in
    let s' : MemoryCircuitBreakerState = record s { half_open_calls = calls } in
    (s', get_or (Dict.get calls name) 0)

unfoldable pub reset_half_open_calls : MemoryCircuitBreakerState → Text → MemoryCircuitBreakerState
reset_half_open_calls s name = record s { half_open_calls = Dict.put s.half_open_calls name 0 }

-- What the breaker named `name` reads after each write. The other fields are equal by `refl`.
module _ (s : MemoryCircuitBreakerState) (name : Text) where
  pub failure_count-increment_failure :
      (now : ℕ)
      → get_failure_count (increment_failure s name now).0 name ≡ get_failure_count s name + 1
  unfolding get_failure_count increment_failure
  failure_count-increment_failure now =
      ground (arith, Dict.get-put_self s.failures name (get_or (Dict.get s.failures name) 0 + 1))

  pub count-increment_failure :
      (now : ℕ) → (increment_failure s name now).1 ≡ get_failure_count s name + 1
  unfolding get_failure_count increment_failure
  count-increment_failure now =
      ground (arith, Dict.get-put_self s.failures name (get_or (Dict.get s.failures name) 0 + 1))

  pub last_failure-increment_failure :
      (now : ℕ) → get_last_failure_time (increment_failure s name now).0 name ≡ some now
  unfolding get_last_failure_time increment_failure
  last_failure-increment_failure now = Dict.get-put_self s.last_failures name now

  pub failure_count-reset_failures : get_failure_count (reset_failures s name) name ≡ 0
  unfolding get_failure_count reset_failures
  failure_count-reset_failures = ground (arith, Dict.get-put_self s.failures name 0)

  pub state-set_state :
      (state : Text) (ttl : Option ℕ) → get_state (set_state s name state ttl) name ≡ state
  unfolding get_state set_state
  state-set_state state ttl = ground (arith, Dict.get-put_self s.states name state)

  pub calls-increment_half_open_calls :
      get_half_open_calls (increment_half_open_calls s name).0 name ≡ get_half_open_calls s name + 1
  unfolding get_half_open_calls increment_half_open_calls
  calls-increment_half_open_calls = ground (
    arith,
    Dict.get-put_self s.half_open_calls name (get_or (Dict.get s.half_open_calls name) 0 + 1),
  )

  pub count-increment_half_open_calls :
      (increment_half_open_calls s name).1 ≡ get_half_open_calls s name + 1
  unfolding get_half_open_calls increment_half_open_calls
  count-increment_half_open_calls = ground (
    arith,
    Dict.get-put_self s.half_open_calls name (get_or (Dict.get s.half_open_calls name) 0 + 1),
  )

  pub calls-reset_half_open_calls : get_half_open_calls (reset_half_open_calls s name) name ≡ 0
  unfolding get_half_open_calls reset_half_open_calls
  calls-reset_half_open_calls = ground (arith, Dict.get-put_self s.half_open_calls name 0)
