-- ===== src/Decorator/Wrapper/Blocks.antt =====
-- Actions of django_smart_ratelimit/decorator.py that do not end in a 429 response.
use django_smart_ratelimit.Prelude.{
  ◌≡◌, ◌≢◌, refl, ◌⊎◌, Bool, true, false, some, arith, if◌then◌else◌,
}
use django_smart_ratelimit.Decorator.Handlers.{
  is_429, run_view, handle_exception, handled, backend_error, Attempt, returns, raises, Action,
  ◌>>=◌, done, catch_all, Headers, Reply, answered, Context, Callees,
}

-- An action ends in a 429 response of the library.
unfoldable pub blocked : {Response : Type 0} → Attempt (Reply Response) → Bool
unfolding is_429
blocked (returns r) = is_429 r
blocked (raises e) = false

-- Whatever the state, an action does not end in a 429 response.
abbrev pub NeverBlocks : {W Response : Type 0} → Action W (Reply Response) → Type 0
NeverBlocks {W} m = (w : W) → blocked (m w).0 ≡ false

-- The default exception handler is not asked after a check that ends like this.
abbrev pub Spared : {W Response : Type 0} → Callees W Response → Attempt Context → Type 0
Spared {W} {Response} c checked =
    (checked ≢ raises backend_error)
    ⊎ ((handler : Action W Response) × (c.exception_handler ≡ some handler))

module _ {W Response : Type 0} where
  after_run :
      {A : Type 0} (f : A → Action W (Reply Response))
      → ((a : A) → NeverBlocks (f a))
      → (run : Attempt A × W)
      → let after : Attempt (Reply Response) × W = elim run.0 [
        | returns a ↦ f a run.1
        | raises e ↦ (raises e, run.1)
      ] in
        blocked after.0 ≡ false
  unfolding blocked
  after_run f free (returns a, w) = free a w
  after_run f free (raises e, w) = refl

  pub >>=-NeverBlocks :
      {A : Type 0} (m : Action W A) (f : A → Action W (Reply Response))
      → ((a : A) → NeverBlocks (f a))
      → NeverBlocks (m >>= f)
  >>=-NeverBlocks m f free w = after_run f free (m w)

  caught_run :
      (recover : Action W (Reply Response))
      → NeverBlocks recover
      → (run : Attempt (Reply Response) × W) → blocked run.0 ≡ false
      → let after : Attempt (Reply Response) × W = elim run.0 [
        | returns a ↦ (returns a, run.1)
        | raises e ↦ recover run.1
      ] in
        blocked after.0 ≡ false
  caught_run recover free (returns a, w) good = good
  caught_run recover free (raises e, w) good = free w

  pub catch_all-NeverBlocks :
      (m recover : Action W (Reply Response))
      → NeverBlocks m
      → NeverBlocks recover
      → NeverBlocks (catch_all m recover)
  unfolding catch_all
  catch_all-NeverBlocks m recover good free w = caught_run recover free (m w) (good w)

  pub answered-NeverBlocks :
      (r : Response) (headers : Headers) → NeverBlocks {W = W} (done (answered r headers))
  unfolding blocked is_429
  answered-NeverBlocks r headers w = refl

  pub run_view-NeverBlocks :
      (c : Callees W Response) (headers : Headers) → NeverBlocks (run_view c headers)
  unfolding run_view
  run_view-NeverBlocks c headers =
      >>=-NeverBlocks c.func (λ r. done (answered r headers)) λ r. answered-NeverBlocks r headers

  -- A configured exception handler answers for itself.
  pub configured-NeverBlocks :
      (c : Callees W Response) (handler : Action W Response)
      → c.exception_handler ≡ some handler
      → NeverBlocks (handle_exception c c.exception_handler)
  unfolding handle_exception
  configured-NeverBlocks c handler e =
      rw e (>>=-NeverBlocks handler (λ r. done (handled r)) λ r w. unfold blocked is_429 in refl)

  pub either-NeverBlocks :
      (b : Bool) (x y : Action W (Reply Response))
      → NeverBlocks x
      → NeverBlocks y
      → NeverBlocks (if b then x else y)
  either-NeverBlocks true x y f g = f
  either-NeverBlocks false x y f g = g

  pub first-NeverBlocks :
      (b : Bool) (x y : Action W (Reply Response))
      → b ≡ true
      → NeverBlocks x
      → NeverBlocks (if b then x else y)
  first-NeverBlocks true x y e f = f
  first-NeverBlocks false x y e f = absurd (ground arith)
