-- ===== src/Decorator/Handlers/Views.antt =====
-- When the handlers of django_smart_ratelimit/decorator.py run the view.
use django_smart_ratelimit.Prelude.{ℕ, ◌≡◌, refl, ◌∙◌, true, none, some}
use django_smart_ratelimit.Decorator.Handlers.Actions.{
  >>=-returns, >>=-raises, catch_type_error-returns, catch_all-raises, state_of_done,
}
use django_smart_ratelimit.Decorator.Handlers.{
  Error, returns, raises, done, catch_type_error, window, bucket, answered, Context,
  handle_shadow_decision, Limit, Callees, check_rate_limit, respond, run_view, after_check,
  handle_standard_rate_limiting, try_token_bucket, handle_token_bucket_algorithm,
}

module _ {W Response : Type 0} (c : Callees W Response) (l : Limit) where
  -- After a check that allows the request, the standard handler runs the view.
  standard_through :
      (w w' : W) (ctx : Context)
      → check_rate_limit c l w ≡ (returns ctx, w')
      → ctx.allowed ≡ true
      → handle_standard_rate_limiting c l w
        ≡ run_view c (window l.limit ctx.remaining ctx.reset_time) w'
  unfolding handle_standard_rate_limiting after_check
  standard_through w w' ctx checked fits =
      rw (checked, fits) (unfold handle_shadow_decision respond in refl)

  -- The token bucket handler that lets a request through whose view raises.
  token_bucket_failed :
      (w w1 w2 : W) (remaining : ℕ) (e : Error)
      → c.is_allowed l.key l.limit l.period (some l.cost) w ≡ (returns (true, remaining), w1)
      → c.func w1 ≡ (raises e, w2)
      → handle_token_bucket_algorithm c l w ≡ handle_standard_rate_limiting c l w2
  unfolding handle_token_bucket_algorithm
  token_bucket_failed w w1 w2 remaining e verdict failed =
      let headers = bucket l.limit l.period remaining in
      let check = c.is_allowed l.key l.limit l.period in
      let verdict' : catch_type_error (check (some l.cost)) (check none) w
          ≡ (returns (true, remaining), w1) =
        catch_type_error-returns (check (some l.cost)) w w1 (check none) (true, remaining)
          verdict in
      let through : respond c l true headers w1 ≡ (raises e, w2) =
        unfold respond run_view in
        >>=-raises c.func w1 w2 (λ response. done (answered response headers)) e failed in
      let tried : try_token_bucket c l w ≡ (raises e, w2) =
        unfold try_token_bucket handle_shadow_decision in
        >>=-returns (catch_type_error (check (some l.cost)) (check none)) w w1
          (λ verdict.
            respond c l (handle_shadow_decision verdict.0 l.shadow).allow
              (bucket l.limit l.period verdict.1))
          (true, remaining) verdict'
        ∙ through in
      catch_all-raises (try_token_bucket c l) w w2 (handle_standard_rate_limiting c l) e tried

  -- A view that raises after the token bucket has let it through is run again by the standard
  -- handler, if its check lets the request through too: what the handler leaves is what the second
  -- run leaves, on top of the first.
  pub view_runs_twice :
      (w w1 w2 w3 : W) (remaining : ℕ) (e : Error) (ctx : Context)
      → c.is_allowed l.key l.limit l.period (some l.cost) w ≡ (returns (true, remaining), w1)
      → c.func w1 ≡ (raises e, w2)
      → check_rate_limit c l w2 ≡ (returns ctx, w3)
      → ctx.allowed ≡ true
      → (handle_token_bucket_algorithm c l w).1 ≡ (c.func w3).1
  view_runs_twice w w1 w2 w3 remaining e ctx verdict failed checked fits =
      rw
        (
          token_bucket_failed w w1 w2 remaining e verdict failed,
          standard_through w2 w3 ctx checked fits,
        )
        (unfold run_view in
          state_of_done
            (λ response. answered response (window l.limit ctx.remaining ctx.reset_time))
            (c.func w3))
