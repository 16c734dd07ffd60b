-- ===== src/Decorator/Wrapper/Decisions.antt =====
-- When the wrapper of django_smart_ratelimit/decorator.py blocks a request in shadow.
use django_smart_ratelimit.Prelude.{
  ◌≡◌, refl, ◌∙◌, inl, inr, ℕ, Text, Bool, true, false, not, ◌||◌, Option, none, some, Bool-cases,
  if◌then◌else◌,
}
use django_smart_ratelimit.Policy.Check.{PolicyResult, policy_allow, policy_deny, policy_continue}
use django_smart_ratelimit.Backends.Utils.Rates.{
  Algorithm, fixed_window, sliding_window, token_bucket, leaky_bucket,
}
use django_smart_ratelimit.Decorator.Handlers.{
  is_429, backend_error, type_error, other_error, Attempt, returns, raises, Action, ◌>>=◌, done,
  catch_type_error, Headers, window, bucket, Reply, answered, too_many, passed, Context,
  handle_shadow_decision, Limit, Callees, check_rate_limit, respond, after_check,
  handle_standard_rate_limiting, try_token_bucket, handle_token_bucket_algorithm, try_leaky_bucket,
  handle_leaky_bucket_algorithm, after_own_check, known_or_asked,
  handle_middleware_processed_request,
}
use django_smart_ratelimit.Decorator.Pipeline.{
  ResolvedLimit, Resolution, resolved, key_generation_error, improperly_configured,
}
use django_smart_ratelimit.Decorator.Wrapper.{
  Lookup, skips, with_tier, effective_limit, unlimited, by_algorithm, limited, by_policy, wrapper,
}
use django_smart_ratelimit.Decorator.Wrapper.Blocks.{
  blocked, NeverBlocks, Spared, >>=-NeverBlocks, catch_all-NeverBlocks, answered-NeverBlocks,
  run_view-NeverBlocks, configured-NeverBlocks, either-NeverBlocks, first-NeverBlocks,
}

module _ {W Response : Type 0} where
  module _ (c : Callees W Response) (l : Limit) (shadow : l.shadow ≡ true) where
    decision_allows : (allowed : Bool) → (handle_shadow_decision allowed l.shadow).allow ≡ true
    unfolding handle_shadow_decision
    decision_allows true = refl
    decision_allows false = rw shadow refl

    respond-NeverBlocks :
        (allowed : Bool) (headers : Headers)
        → NeverBlocks (respond c l (handle_shadow_decision allowed l.shadow).allow headers)
    unfolding respond
    respond-NeverBlocks allowed headers =
        rw (decision_allows allowed) (run_view-NeverBlocks c headers)

    after_check-NeverBlocks :
        (checked : Attempt Context) → Spared c checked → NeverBlocks (after_check c l checked)
    unfolding after_check
    after_check-NeverBlocks (raises backend_error) (inl never) = absurd (never refl)
    after_check-NeverBlocks (raises backend_error) (inr (handler, e)) =
        configured-NeverBlocks c handler e
    after_check-NeverBlocks (raises type_error) safe = λ w. unfold blocked in refl
    after_check-NeverBlocks (raises other_error) safe = λ w. unfold blocked in refl
    after_check-NeverBlocks (returns ctx) safe =
        respond-NeverBlocks ctx.allowed (window l.limit ctx.remaining ctx.reset_time)

    own_check-NeverBlocks :
        (checked : Attempt Context) → Spared c checked → NeverBlocks (after_own_check c l checked)
    unfolding after_own_check
    own_check-NeverBlocks (raises backend_error) (inl never) = absurd (never refl)
    own_check-NeverBlocks (raises backend_error) (inr (handler, e)) =
        configured-NeverBlocks c handler e
    own_check-NeverBlocks (raises type_error) safe = λ w. unfold blocked in refl
    own_check-NeverBlocks (raises other_error) safe = λ w. unfold blocked in refl
    own_check-NeverBlocks (returns ctx) safe =
        let ending : Response → Option ℕ → Action W (Reply Response) =
          λ r reset. done (answered r (window l.limit ctx.remaining reset)) in
        rw (decision_allows ctx.allowed) (
          >>=-NeverBlocks c.func (λ r. known_or_asked c l ctx.reset_time >>= ending r)
            λ r.
              >>=-NeverBlocks (known_or_asked c l ctx.reset_time) (ending r)
                λ reset. answered-NeverBlocks r (window l.limit ctx.remaining reset))

    module _ (safe : (w : W) → Spared c (check_rate_limit c l w).0) where
      standard-NeverBlocks : NeverBlocks (handle_standard_rate_limiting c l)
      unfolding handle_standard_rate_limiting
      standard-NeverBlocks w =
          after_check-NeverBlocks (check_rate_limit c l w).0 (safe w) (check_rate_limit c l w).1

      token_bucket-NeverBlocks : NeverBlocks (handle_token_bucket_algorithm c l)
      unfolding handle_token_bucket_algorithm
      token_bucket-NeverBlocks =
          catch_all-NeverBlocks (try_token_bucket c l) (handle_standard_rate_limiting c l)
            (unfold try_token_bucket in
              let check = c.is_allowed l.key l.limit l.period in
              >>=-NeverBlocks (catch_type_error (check (some l.cost)) (check none))
                (λ verdict.
                  respond c l (handle_shadow_decision verdict.0 l.shadow).allow
                    (bucket l.limit l.period verdict.1))
                λ verdict. respond-NeverBlocks verdict.0 (bucket l.limit l.period verdict.1))
            standard-NeverBlocks

      leaky_bucket-NeverBlocks : NeverBlocks (handle_leaky_bucket_algorithm c l)
      unfolding handle_leaky_bucket_algorithm
      leaky_bucket-NeverBlocks =
          let ending : Bool × ℕ → Option ℕ → Action W (Reply Response) = λ verdict reset.
            respond c l (handle_shadow_decision verdict.0 l.shadow).allow
              (window l.limit verdict.1 reset) in
          catch_all-NeverBlocks (try_leaky_bucket c l) (handle_standard_rate_limiting c l)
            (unfold try_leaky_bucket in
              >>=-NeverBlocks (c.is_allowed l.key l.limit l.period (some l.cost))
                (λ verdict. c.get_reset_time l.key l.period >>= ending verdict)
                λ verdict.
                  >>=-NeverBlocks (c.get_reset_time l.key l.period) (ending verdict)
                    λ reset. respond-NeverBlocks verdict.0 (window l.limit verdict.1 reset))
            standard-NeverBlocks

      own-NeverBlocks : NeverBlocks (handle_middleware_processed_request c l)
      unfolding handle_middleware_processed_request
      own-NeverBlocks w =
          own_check-NeverBlocks (check_rate_limit c l w).0 (safe w) (check_rate_limit c l w).1

      algorithm-NeverBlocks :
          (a : Option Algorithm) (leaky : Bool) → NeverBlocks (by_algorithm c a leaky l)
      unfolding by_algorithm
      algorithm-NeverBlocks (some token_bucket) leaky = token_bucket-NeverBlocks
      algorithm-NeverBlocks (some leaky_bucket) true = leaky_bucket-NeverBlocks
      algorithm-NeverBlocks (some leaky_bucket) false = standard-NeverBlocks
      algorithm-NeverBlocks (some fixed_window) leaky = standard-NeverBlocks
      algorithm-NeverBlocks (some sliding_window) leaky = standard-NeverBlocks
      algorithm-NeverBlocks none leaky = standard-NeverBlocks

module _ {W Response : Type 0} (c : Callees W Response) where
  tier-shadow :
      (k : Lookup) (r : ResolvedLimit) (t : Option (ℕ × ℕ × Text))
      → (with_tier k r t).shadow ≡ k.shadow
  unfolding with_tier
  tier-shadow k r none = refl
  tier-shadow k r (some (limit, period, key)) = refl

  unlimited-NeverBlocks : NeverBlocks (unlimited c)
  unfolding unlimited
  unlimited-NeverBlocks =
      >>=-NeverBlocks c.func (λ r. done (passed r)) λ r w. unfold blocked is_429 in refl

  module _ (safe : (l : Limit) (w : W) → Spared c (check_rate_limit c l w).0) where
    limited-NeverBlocks :
        (k : Lookup) (r : Resolution) → k.shadow ≡ true → NeverBlocks (limited c k r)
    unfolding limited
    limited-NeverBlocks k key_generation_error shadow = λ w. unfold blocked in refl
    limited-NeverBlocks k improperly_configured shadow = λ w. unfold blocked in refl
    limited-NeverBlocks k (resolved r) shadow =
        let l = effective_limit k r in
        let shadow' : l.shadow ≡ true =
          unfold effective_limit in
          tier-shadow k r (if k.adaptive then none else k.tiered) ∙ shadow in
        either-NeverBlocks k.middleware_processed (handle_middleware_processed_request c l)
          (by_algorithm c k.algorithm k.has_leaky_bucket_check l)
          (own-NeverBlocks c l shadow' (safe l))
          (algorithm-NeverBlocks c l shadow' (safe l) k.algorithm k.has_leaky_bucket_check)

    policy-NeverBlocks :
        (k : Lookup) (now : ℕ) (p : PolicyResult)
        → k.shadow ≡ true
        → NeverBlocks (by_policy c k now p)
    unfolding by_policy
    policy-NeverBlocks k now policy_allow shadow = unlimited-NeverBlocks
    policy-NeverBlocks k now policy_continue shadow = limited-NeverBlocks k k.resolution shadow
    policy-NeverBlocks k now policy_deny shadow =
        first-NeverBlocks k.shadow (limited c k k.resolution)
          (done (too_many (window 0 0 (some now)))) shadow
          (limited-NeverBlocks k k.resolution shadow)

    -- In shadow, where no check of a limit raises a BackendError, or an exception handler is
    -- configured in place of the default one (which answers 429 also in shadow), no answer is a 429
    -- of the library, whatever the backend, the view, the lists, the algorithm and the middleware
    -- do, and whichever of them raise.
    pub shadow_never_blocks :
        (k : Lookup) (now : ℕ) (w : W) → k.shadow ≡ true → blocked (wrapper c k now w).0 ≡ false
    unfolding wrapper
    shadow_never_blocks k now w shadow =
        elim (Bool-cases (not k.enabled || not k.has_request || skips k.skip_if)) [
          | inl free ↦ rw free (unlimited-NeverBlocks w)
          | inr counted ↦ rw counted (policy-NeverBlocks k now k.policy shadow w)
        ]
