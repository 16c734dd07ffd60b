-- ===== src/Decorator/Pipeline/Usable.antt =====
-- What `resolve_effective_rate` (django_smart_ratelimit/pipeline.py) resolves can be counted with.
use django_smart_ratelimit.Prelude.{
  ℕ, ◌≤◌, ◌≡◌, inl, inr, false, none, some, Text, Option-cases, Bool-cases, arith,
}
use django_smart_ratelimit.Prelude.Strings.{is_empty}
use django_smart_ratelimit.Prelude.Dict.{Dict}
use django_smart_ratelimit.Backends.Utils.Rates.{parse_rate}
use django_smart_ratelimit.Backends.Utils.Rates.Parse.{parse_rate_positive}
use django_smart_ratelimit.Adaptive.Limiter.{AdaptiveRateLimiter}
use django_smart_ratelimit.Decorator.Pipeline.{
  Cost, left_out, value, computed, clamped_cost, resolve_cost, ResolvedLimit, resolved, Adaptive,
  resolve_effective_rate,
}

resolve_cost_pos : (cost : Cost) → 1 ≤ resolve_cost cost
unfolding resolve_cost clamped_cost
resolve_cost_pos left_out = omega arith
resolve_cost_pos (value none) = omega arith
resolve_cost_pos (value (some n)) = omega arith
resolve_cost_pos (computed none) = omega arith
resolve_cost_pos (computed (some none)) = omega arith
resolve_cost_pos (computed (some (some n))) = omega arith

-- Whatever the user's functions answer, a limit that is resolved has a key that is not empty, a
-- cost of at least 1 and a period of at least a second.
pub resolved_usable {ℓ} :
    {World : Type ℓ} (limiters : Dict Text (AdaptiveRateLimiter World)) (world : World) (now : ℕ)
    (key rate : Text) (adaptive : Adaptive World) (cost : Cost) (r : ResolvedLimit)
    → (resolve_effective_rate limiters world now key rate adaptive cost).0 ≡ resolved r
    → (is_empty r.key ≡ false) × (1 ≤ r.cost) × (1 ≤ r.period)
unfolding resolve_effective_rate
resolved_usable limiters world now key rate adaptive cost r e = elim (Bool-cases (is_empty key)) [
  | inl empty ↦ absurd (ground arith)
  | inr there ↦ elim (Option-cases (parse_rate rate)) [
    | inl unparsed ↦ absurd (ground arith)
    | inr ((limit, period), parsed) ↦
        let long = parse_rate_positive rate limit period parsed in
        let costs = resolve_cost_pos cost in (ground arith, ground arith, ground arith)
  ]
]
