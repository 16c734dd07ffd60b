-- ===== src/CircuitBreaker/Stats.antt =====
-- django_smart_ratelimit/circuit_breaker.py: the states of a breaker and `CircuitBreakerStats`.
use django_smart_ratelimit.Prelude.{
  ℕ, ◌+◌, ◌≤◌, ◌≡◌, refl, Option, none, some, List, [], ◌∷◌, ◌++◌, arith, Text, text_key, codes,
  ltb, length, length-append, drop, length-drop, if◌then◌else◌, ◌==◌, Bool, true, false,
}

pub data CircuitBreakerState : Type 0 where
  closed open_circuit half_open : CircuitBreakerState

abbrev pub value : CircuitBreakerState → Text
value closed = codes "closed"
value open_circuit = codes "open"
value half_open = codes "half_open"

-- `CircuitBreakerState(state_str)`, with CLOSED for a ValueError
unfoldable pub of_value : Text → CircuitBreakerState
of_value s =
    if s == codes "closed"
    then closed
    else if s == codes "open"
    then open_circuit
    else if s == codes "half_open"
    then half_open
    else closed

pub of_value-value : (s : CircuitBreakerState) → of_value (value s) ≡ s
unfolding of_value
of_value-value closed = refl
of_value-value open_circuit = refl
of_value-value half_open = refl

-- `old_state != new_state`
abbrev pub state_ne : CircuitBreakerState → CircuitBreakerState → Bool
state_ne closed closed = false
state_ne open_circuit open_circuit = false
state_ne half_open half_open = false
state_ne _ _ = true

pub record StateChange : Type 0 where
  pub timestamp : ℕ
  pub from_state : Text
  pub to_state : Text

pub record CircuitBreakerStats : Type 0 where
  pub total_calls : ℕ
  pub successful_calls : ℕ
  pub failed_calls : ℕ
  pub state_changes : ℕ
  pub last_failure_time : Option ℕ
  pub last_success_time : Option ℕ
  pub state_change_history : List StateChange

unfoldable pub new_stats : CircuitBreakerStats
new_stats = record {
  total_calls = 0;
  successful_calls = 0;
  failed_calls = 0;
  state_changes = 0;
  last_failure_time = none;
  last_success_time = none;
  state_change_history = [];
}

unfoldable pub record_success : CircuitBreakerStats → ℕ → CircuitBreakerStats
record_success s now = record s {
  total_calls = s.total_calls + 1;
  successful_calls = s.successful_calls + 1;
  last_success_time = some now;
}

unfoldable pub record_failure : CircuitBreakerStats → ℕ → CircuitBreakerStats
record_failure s now = record s {
  total_calls = s.total_calls + 1;
  failed_calls = s.failed_calls + 1;
  last_failure_time = some now;
}

unfoldable pub record_state_change :
    CircuitBreakerStats → CircuitBreakerState → CircuitBreakerState → ℕ → CircuitBreakerStats
record_state_change s old_state new_state now =
    let change : StateChange = record {
      timestamp = now;
      from_state = value old_state;
      to_state = value new_state;
    } in
    let history = s.state_change_history ++ change ∷ [] in
    record s {
      state_changes = s.state_changes + 1;
      state_change_history = if ltb 100 (length history) then drop 1 history else history;
    }

-- The counters of calls agree, and the history keeps at most 100 of the counted changes.
pub record IsConsistent (s : CircuitBreakerStats) : Type 0 where
  pub calls : s.total_calls ≡ s.successful_calls + s.failed_calls
  pub bounded : length s.state_change_history ≤ 100
  pub counted : length s.state_change_history ≤ s.state_changes

pub new_stats-IsConsistent : IsConsistent new_stats
unfolding new_stats
new_stats-IsConsistent = omega arith

pub record_success-IsConsistent :
    (s : CircuitBreakerStats) (now : ℕ) → IsConsistent s → IsConsistent (record_success s now)
unfolding record_success
record_success-IsConsistent s now h = omega arith

pub record_failure-IsConsistent :
    (s : CircuitBreakerStats) (now : ℕ) → IsConsistent s → IsConsistent (record_failure s now)
unfolding record_failure
record_failure-IsConsistent s now h = omega arith

pub record_state_change-IsConsistent :
    (s : CircuitBreakerStats) (a b : CircuitBreakerState) (now : ℕ)
    → IsConsistent s
    → IsConsistent (record_state_change s a b now)
unfolding record_state_change
record_state_change-IsConsistent s a b now h =
    let change : StateChange = record {
      timestamp = now;
      from_state = value a;
      to_state = value b;
    } in
    ground (
      arith,
      length-append s.state_change_history (change ∷ []),
      length-drop 1 (s.state_change_history ++ change ∷ []),
    )
