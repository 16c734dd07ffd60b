-- ===== src/CircuitBreaker/Registry.antt =====
-- django_smart_ratelimit/circuit_breaker.py: `CircuitBreakerRegistry`. The registry owns the
-- breakers that it hands out: a change to one is written back under its name.
use django_smart_ratelimit.Prelude.{
  ℕ, ◌*◌, ◌≡◌, ◌≢◌, Bool, true, false, Option, none, some, [], ◌∷◌, arith, Text, text_key, codes,
  if◌then◌else◌, text_beq_iff,
}
use django_smart_ratelimit.Prelude.Dict
use django_smart_ratelimit.Prelude.Dict.{Dict}
use django_smart_ratelimit.CircuitBreaker.Breaker.{
  CircuitBreaker, CircuitBreakerConfig, new_breaker, reset,
}

abbrev pub Registry : Type 0
Registry = Dict Text CircuitBreaker

-- `name or "circuit_breaker"`
unfoldable pub or_default_name : Text → Text
or_default_name [] = codes "circuit_breaker"
or_default_name (c ∷ name) = c ∷ name

-- `CircuitBreakerConfig(name=name)`, with its defaults in seconds and `second` ticks to a second.
unfoldable pub default_config : ℕ → Text → CircuitBreakerConfig
unfolding or_default_name
default_config second name = record {
  failure_threshold = 5;
  recovery_timeout = 60 * second;
  name = or_default_name name;
  reset_timeout = 300 * second;
  half_open_max_calls = 1;
  exponential_backoff_multiplier = 2;
  exponential_backoff_max = 300 * second;
}

abbrev pub chosen_config : ℕ → Text → Option CircuitBreakerConfig → CircuitBreakerConfig
chosen_config second name none = default_config second name
chosen_config second name (some given) = given

unfoldable pub get_or_create :
    ℕ → Registry → Text → Option CircuitBreakerConfig → Registry × CircuitBreaker
get_or_create second breakers name config = elim (Dict.get breakers name) [
  | some b ↦ (breakers, b)
  | none ↦ (let b = new_breaker (chosen_config second name config) in (Dict.put breakers name b, b))
]

unfoldable pub reset_all : Registry → ℕ → Registry
reset_all [] now = []
reset_all ((name, b) ∷ breakers) now = (name, reset b now) ∷ reset_all breakers now

unfoldable pub remove : Registry → Text → Registry × Bool
remove breakers name =
    if Dict.contains breakers name then (Dict.remove breakers name, true) else (breakers, false)

-- The second request for a name, with whatever configuration, gives the breaker that the first
-- one made and leaves the registry alone.
pub get_or_create_again :
    (second : ℕ) (breakers : Registry) (name : Text) (c d : Option CircuitBreakerConfig)
    → let (breakers', b) = get_or_create second breakers name c in
      get_or_create second breakers' name d ≡ (breakers', b)
unfolding get_or_create
get_or_create_again second breakers name c d =
    ground (arith, Dict.get-put_self breakers name (new_breaker (chosen_config second name c)))

-- A registry is untouched at the other names by making or removing a breaker.
pub other_names_kept :
    (second : ℕ) (breakers : Registry) (name other : Text) (c : Option CircuitBreakerConfig)
    → name ≢ other
    → (Dict.get (get_or_create second breakers name c).0 other ≡ Dict.get breakers other)
      × (Dict.get (remove breakers name).0 other ≡ Dict.get breakers other)
      × (Dict.get (remove breakers name).0 name ≡ none)
unfolding get_or_create remove Dict.contains
other_names_kept second breakers name other c h =
    let b = new_breaker (chosen_config second name c) in
    ground (
      arith,
      Dict.get-put breakers name other b,
      Dict.get-remove breakers name other,
      Dict.get-remove breakers name name,
      text_beq_iff name other,
      text_beq_iff name name,
    )
