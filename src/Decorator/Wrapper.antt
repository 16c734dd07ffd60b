-- ===== src/Decorator/Wrapper.antt =====
-- django_smart_ratelimit/decorator.py: the synchronous wrapper of the decorator `rate_limit`. What
-- it looks up before it counts (the settings, the request, `skip_if`, the lists, the effective rate
-- and the tier of the user) is its argument, as values.
pub mod Blocks
pub mod Decisions
use django_smart_ratelimit.Prelude.{
  ℕ, Bool, true, false, ◌&&◌, ◌||◌, not, Option, none, some, Text, if◌then◌else◌,
}
use django_smart_ratelimit.Policy.Check.{PolicyResult, policy_allow, policy_deny, policy_continue}
use django_smart_ratelimit.Decorator.Handlers.{
  other_error, Error, Attempt, returns, raises, Action, ◌>>=◌, done, Headers, window, Reply,
  too_many, passed, Limit, Callees, handle_standard_rate_limiting, handle_token_bucket_algorithm,
  handle_leaky_bucket_algorithm, handle_middleware_processed_request,
}
use django_smart_ratelimit.Decorator.Pipeline.{
  ResolvedLimit, Resolution, resolved, key_generation_error, improperly_configured,
}
use django_smart_ratelimit.Backends.Utils.Rates.{
  Algorithm, fixed_window, sliding_window, token_bucket, leaky_bucket,
}

-- What the wrapper has looked up. `skip_if` is what the function of that name answers, with `none`
-- inside for an exception; `tiered` is the limit, period and key of the user's tier.
pub record Lookup : Type 0 where
  pub enabled : Bool
  pub has_request : Bool
  pub skip_if : Option (Option Bool)
  pub policy : PolicyResult
  pub resolution : Resolution
  pub adaptive : Bool
  pub tiered : Option (ℕ × ℕ × Text)
  pub middleware_processed : Bool
  pub algorithm : Option Algorithm
  pub has_leaky_bucket_check : Bool
  pub block : Bool
  pub shadow : Bool

unfoldable pub skips : Option (Option Bool) → Bool
skips (some (some answer)) = answer
skips (some none) = false
skips none = false

-- The limit, period and key of the tier take the place of those that were resolved.
unfoldable pub with_tier : Lookup → ResolvedLimit → Option (ℕ × ℕ × Text) → Limit
with_tier l r none = record {
  key = r.key;
  limit = r.limit;
  period = r.period;
  block = l.block;
  shadow = l.shadow;
  cost = r.cost;
}
with_tier l r (some (limit, period, key)) = record {
  key = key;
  limit = limit;
  period = period;
  block = l.block;
  shadow = l.shadow;
  cost = r.cost;
}

unfoldable pub effective_limit : Lookup → ResolvedLimit → Limit
effective_limit l r = with_tier l r (if l.adaptive then none else l.tiered)

module _ {W Response : Type 0} (c : Callees W Response) where
  -- The view with no limit.
  unfoldable pub unlimited : Action W (Reply Response)
  unlimited = do response ← c.func; done (passed response)

  unfoldable pub by_algorithm : Option Algorithm → Bool → Limit → Action W (Reply Response)
  by_algorithm (some token_bucket) leaky l = handle_token_bucket_algorithm c l
  by_algorithm (some leaky_bucket) true l = handle_leaky_bucket_algorithm c l
  by_algorithm (some leaky_bucket) false l = handle_standard_rate_limiting c l
  by_algorithm (some fixed_window) leaky l = handle_standard_rate_limiting c l
  by_algorithm (some sliding_window) leaky l = handle_standard_rate_limiting c l
  by_algorithm none leaky l = handle_standard_rate_limiting c l

  unfoldable pub limited : Lookup → Resolution → Action W (Reply Response)
  limited l key_generation_error = λ w. (raises other_error, w)
  limited l improperly_configured = λ w. (raises other_error, w)
  limited l (resolved r) =
      if l.middleware_processed
      then handle_middleware_processed_request c (effective_limit l r)
      else by_algorithm l.algorithm l.has_leaky_bucket_check (effective_limit l r)

  unfoldable pub by_policy : Lookup → ℕ → PolicyResult → Action W (Reply Response)
  by_policy l now policy_allow = unlimited
  by_policy l now policy_continue = limited l l.resolution
  by_policy l now policy_deny =
      if l.shadow then limited l l.resolution else done (too_many (window 0 0 (some now)))

  unfoldable pub wrapper : Lookup → ℕ → Action W (Reply Response)
  wrapper l now =
      if not l.enabled || not l.has_request || skips l.skip_if
      then unlimited
      else by_policy l now l.policy
