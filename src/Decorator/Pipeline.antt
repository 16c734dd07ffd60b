-- ===== src/Decorator/Pipeline.antt =====
-- django_smart_ratelimit/pipeline.py: `_resolve_cost`, `_apply_adaptive` and
-- `resolve_effective_rate`. What the key, rate and cost functions of the user answer is an argument.
pub mod Usable
use django_smart_ratelimit.Prelude.{ℕ, max, Option, none, some, Text, if◌then◌else◌}
use django_smart_ratelimit.Prelude.Int.{ℤ, pos_part}
use django_smart_ratelimit.Prelude.Strings.{is_empty}
use django_smart_ratelimit.Prelude.Dict.{Dict}
use django_smart_ratelimit.Backends.Utils.Rates.{parse_rate}
use django_smart_ratelimit.Adaptive.Limiter.{
  AdaptiveRateLimiter, get_adaptive_limiter, register_adaptive_limiter, get_effective_limit,
}

-- A cost that is left out, a value, or a function of the request; `none` inside is a value that is
-- no integer, and outside a function that raises.
pub data Cost : Type 0 where
  left_out : Cost
  value : Option ℤ → Cost
  computed : Option (Option ℤ) → Cost

-- `max(1, int(value))`, and 1 where that fails.
unfoldable pub clamped_cost : Option ℤ → ℕ
clamped_cost none = 1
clamped_cost (some n) = max 1 (pos_part n)

unfoldable pub resolve_cost : Cost → ℕ
unfolding clamped_cost
resolve_cost left_out = 1
resolve_cost (value n) = clamped_cost n
resolve_cost (computed none) = 1
resolve_cost (computed (some n)) = clamped_cost n

pub record ResolvedLimit : Type 0 where
  pub key : Text
  pub limit : ℕ
  pub period : ℕ
  pub cost : ℕ
  pub rate_string : Text

pub data Resolution : Type 0 where
  resolved : ResolvedLimit → Resolution
  key_generation_error : Resolution
  improperly_configured : Resolution

-- The argument `adaptive`: nothing, the name of a limiter, a limiter, or a value of another type.
pub data Adaptive {ℓ} (World : Type ℓ) : Type ℓ where
  off : Adaptive World
  named : Text → Adaptive World
  limiter : AdaptiveRateLimiter World → Adaptive World
  invalid : Adaptive World

module _ {ℓ} {World : Type ℓ} where
  -- The limit, and the limiters with the state that asking left.
  unfoldable pub apply_adaptive :
      Dict Text (AdaptiveRateLimiter World)
      → World
      → ℕ
      → Adaptive World
      → ℕ
      → ℕ × Adaptive World × Dict Text (AdaptiveRateLimiter World)
  apply_adaptive limiters world now off base_limit = (base_limit, off, limiters)
  apply_adaptive limiters world now invalid base_limit = (base_limit, invalid, limiters)
  apply_adaptive limiters world now (limiter a) base_limit =
      let (a', effective) = get_effective_limit a world now in (effective, limiter a', limiters)
  apply_adaptive limiters world now (named name) base_limit =
      elim (get_adaptive_limiter limiters name) [
        | none ↦ (base_limit, named name, limiters)
        | some a ↦
            (let (a', effective) = get_effective_limit a world now in
              (effective, named name, register_adaptive_limiter limiters name a'))
      ]

  -- The key, the rate string and the cost as the functions of the user gave them.
  unfoldable pub resolve_effective_rate :
      Dict Text (AdaptiveRateLimiter World)
      → World
      → ℕ
      → Text
      → Text
      → Adaptive World
      → Cost
      → Resolution × Dict Text (AdaptiveRateLimiter World)
  resolve_effective_rate limiters world now key rate adaptive cost =
      if is_empty key then (key_generation_error, limiters) else (elim (parse_rate rate) [
        | none ↦ (improperly_configured, limiters)
        | some (limit, period) ↦
            (let (effective, _, limiters') = apply_adaptive limiters world now adaptive limit in
              (
                resolved (record {
                  key = key;
                  limit = effective;
                  period = period;
                  cost = resolve_cost cost;
                  rate_string = rate;
                }),
                limiters',
              ))
      ])
