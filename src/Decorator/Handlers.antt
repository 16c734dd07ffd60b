-- ===== src/Decorator/Handlers.antt =====
-- django_smart_ratelimit/decorator.py: `check_rate_limit`, the handlers that apply a limit to a view,
-- and `handle_shadow_decision` of pipeline.py. `W` is all that the view and the backend can change.
-- The operations of the backend, the check of a bucket algorithm, `_get_reset_time`, the view
-- itself, the mark on its request and a configured exception handler are arguments; each may raise,
-- but for the mark. Reporting, `response_callback` and the object `request.ratelimit` are left out.
pub mod Actions
pub mod Views
pub mod Weights
use django_smart_ratelimit.Prelude.{
  ℕ, zero, suc, ◌+◌, ◌-◌, Bool, true, false, not, ◌&&◌, ◌||◌, Option, none, some, Text, leb,
  nat_beq, if◌then◌else◌,
}

pub data Error : Type 0 where
  backend_error type_error other_error : Error

pub data Attempt (A : Type 0) : Type 0 where
  returns : A → Attempt A
  raises : Error → Attempt A

abbrev pub Action : Type 0 → Type 0 → Type 0
Action W A = W → Attempt A × W

infixl 5 ◌>>=◌
abbrev pub ◌>>=◌ : {W A B : Type 0} → Action W A → (A → Action W B) → Action W B
◌>>=◌ m f w =
    let (result, w') = m w in elim result [ returns a ↦ f a w' | raises e ↦ (raises e, w') ]

abbrev pub done : {W A : Type 0} → A → Action W A
done a w = (returns a, w)

-- `try` with `except Exception`.
unfoldable pub catch_all : {W A : Type 0} → Action W A → Action W A → Action W A
catch_all m recover w =
    let (result, w') = m w in elim result [ returns a ↦ (returns a, w') | raises e ↦ recover w' ]

unfoldable pub is_type_error : Error → Bool
is_type_error type_error = true
is_type_error backend_error = false
is_type_error other_error = false

-- `try` with `except TypeError`.
unfoldable pub catch_type_error : {W A : Type 0} → Action W A → Action W A → Action W A
unfolding is_type_error
catch_type_error m recover w =
    let (result, w') = m w in
    let again = recover w' in
    elim result [
      | returns a ↦ (returns a, w')
      | raises e ↦ if is_type_error e then again else (raises e, w')
    ]

-- The headers of a response: of a window, with the time of the reset, or of a bucket.
pub data Headers : Type 0 where
  window : ℕ → ℕ → Option ℕ → Headers
  bucket : ℕ → ℕ → ℕ → Headers

-- A response: of the view, with the headers of the limit or, where no limit applies, without; 429
-- with the headers of the limit; 429 with no headers, which the default exception handler makes of a
-- BackendError; or what a configured handler makes of it.
pub data Reply (Response : Type 0) : Type 0 where
  answered : Response → Headers → Reply Response
  passed : Response → Reply Response
  too_many : Headers → Reply Response
  bare_too_many : Reply Response
  handled : Response → Reply Response

-- `response.status_code == 429` of the responses that the library makes itself.
unfoldable pub is_429 : {Response : Type 0} → Reply Response → Bool
is_429 (answered r headers) = false
is_429 (passed r) = false
is_429 (too_many headers) = true
is_429 bare_too_many = true
is_429 (handled r) = false

-- The context of a request, once it is checked.
pub record Context : Type 0 where
  pub allowed : Bool
  pub remaining : ℕ
  pub reset_time : Option ℕ

pub record ShadowDecision : Type 0 where
  pub allow : Bool
  pub shadowed : Bool

unfoldable pub handle_shadow_decision : Bool → Bool → ShadowDecision
handle_shadow_decision allowed shadow =
    if allowed
    then record { allow = true; shadowed = false }
    else if shadow
    then record { allow = true; shadowed = true }
    else record { allow = false; shadowed = false }

-- The arguments of a handler.
pub record Limit : Type 0 where
  pub key : Text
  pub limit : ℕ
  pub period : ℕ
  pub block : Bool
  pub shadow : Bool
  pub cost : ℕ

-- What a handler calls: `backend.increment(key, period, limit)`, where the backend has it, and
-- `backend.incr(key, period)`, with the cost or without it; `is_allowed` of an algorithm, with the
-- cost or without it, for its decision and what remains; `_get_reset_time`; the view; what sets
-- `request.rate_limit_exceeded`; and the exception handler of the settings, if one can be imported.
pub record Callees (W Response : Type 0) : Type 0 where
  pub increment : Option (Text → ℕ → ℕ → Action W (ℕ × ℕ))
  pub incr : Text → ℕ → Option ℕ → Action W ℕ
  pub is_allowed : Text → ℕ → ℕ → Option ℕ → Action W (Bool × ℕ)
  pub get_reset_time : Text → ℕ → Action W (Option ℕ)
  pub func : Action W Response
  pub mark_exceeded : W → W
  pub exception_handler : Option (Action W Response)

-- The loop over the rest of the cost: every round replaces the count.
unfoldable pub repeated : {W A : Type 0} → Action W A → ℕ → A → Action W A
repeated count zero counted = done counted
repeated count (suc left) counted = do next ← count; repeated count left next

module _ {W Response : Type 0} (c : Callees W Response) where
  -- The count and what remains, by `increment` or, on a backend that has none, by `incr`.
  unfoldable pub counted_by : Option (Text → ℕ → ℕ → Action W (ℕ × ℕ)) → Limit → Action W (ℕ × ℕ)
  unfolding repeated
  counted_by (some increment) l = do
    first ← increment l.key l.period l.limit
    repeated (increment l.key l.period l.limit) (l.cost - 1) first
  counted_by none l = do
    current_count ← catch_type_error (c.incr l.key l.period (some l.cost)) (do
      first ← c.incr l.key l.period none
      repeated (c.incr l.key l.period none) (l.cost - 1) first)
    done (current_count, l.limit - current_count)

  unfoldable pub check_rate_limit : Limit → Action W Context
  unfolding counted_by
  check_rate_limit l = do
    counted ← counted_by c.increment l
    reset_time ← c.get_reset_time l.key l.period
    done
        (record { allowed = leb counted.0 l.limit; remaining = counted.1; reset_time = reset_time })

  -- The view, and the headers of its response.
  unfoldable pub run_view : Headers → Action W (Reply Response)
  run_view headers = do response ← c.func; done (answered response headers)

  -- The end of every handler: the view; 429; or the view, on a request that is marked before.
  unfoldable pub respond : Limit → Bool → Headers → Action W (Reply Response)
  unfolding run_view
  respond l allowed headers =
      if allowed
      then run_view headers
      else if l.block
      then done (too_many headers)
      else (λ w. run_view headers (c.mark_exceeded w))

  -- `get_exception_handler()` on the request and the exception.
  unfoldable pub handle_exception : Option (Action W Response) → Action W (Reply Response)
  handle_exception none = done bare_too_many
  handle_exception (some handler) = do response ← handler; done (handled response)

  -- What follows the check; a BackendError goes to the exception handler.
  unfoldable pub after_check : Limit → Attempt Context → Action W (Reply Response)
  unfolding handle_exception
  after_check l (raises backend_error) = handle_exception c.exception_handler
  after_check l (raises type_error) = λ w. (raises type_error, w)
  after_check l (raises other_error) = λ w. (raises other_error, w)
  after_check l (returns ctx) =
      respond l (handle_shadow_decision ctx.allowed l.shadow).allow
        (window l.limit ctx.remaining ctx.reset_time)

  unfoldable pub handle_standard_rate_limiting : Limit → Action W (Reply Response)
  handle_standard_rate_limiting l w =
      let (checked, w') = check_rate_limit l w in after_check l checked w'

  -- The body of the `try` of the token bucket handler.
  unfoldable pub try_token_bucket : Limit → Action W (Reply Response)
  try_token_bucket l = do
    verdict ←
        catch_type_error (c.is_allowed l.key l.limit l.period (some l.cost))
          (c.is_allowed l.key l.limit l.period none)
    respond l (handle_shadow_decision verdict.0 l.shadow).allow (bucket l.limit l.period verdict.1)

  unfoldable pub handle_token_bucket_algorithm : Limit → Action W (Reply Response)
  handle_token_bucket_algorithm l = catch_all (try_token_bucket l) (handle_standard_rate_limiting l)

  -- The body of the `try` of the leaky bucket handler.
  unfoldable pub try_leaky_bucket : Limit → Action W (Reply Response)
  try_leaky_bucket l = do
    verdict ← c.is_allowed l.key l.limit l.period (some l.cost)
    reset_time ← c.get_reset_time l.key l.period
    respond l (handle_shadow_decision verdict.0 l.shadow).allow
        (window l.limit verdict.1 reset_time)

  unfoldable pub handle_leaky_bucket_algorithm : Limit → Action W (Reply Response)
  handle_leaky_bucket_algorithm l = catch_all (try_leaky_bucket l) (handle_standard_rate_limiting l)

  -- `ctx.reset_time or _get_reset_time(…)`
  unfoldable pub known_or_asked : Limit → Option ℕ → Action W (Option ℕ)
  known_or_asked l none = c.get_reset_time l.key l.period
  known_or_asked l (some zero) = c.get_reset_time l.key l.period
  known_or_asked l (some (suc t)) = done (some (suc t))

  -- What follows the check where the middleware has been before.
  unfoldable pub after_own_check : Limit → Attempt Context → Action W (Reply Response)
  unfolding handle_exception
  after_own_check l (raises backend_error) = handle_exception c.exception_handler
  after_own_check l (raises type_error) = λ w. (raises type_error, w)
  after_own_check l (raises other_error) = λ w. (raises other_error, w)
  after_own_check l (returns ctx) =
      if (handle_shadow_decision ctx.allowed l.shadow).allow
      then (do
        response ← c.func
        reset_time ← known_or_asked l ctx.reset_time
        done (answered response (window l.limit ctx.remaining reset_time)))
      else if l.block
      then (do
        reset_time ← c.get_reset_time l.key l.period
        done (too_many (window l.limit 0 reset_time)))
      else (λ w.
          (do
            response ← c.func
            reset_time ← c.get_reset_time l.key l.period
            done (answered response (window l.limit 0 reset_time)))
            (c.mark_exceeded w))

  unfoldable pub handle_middleware_processed_request : Limit → Action W (Reply Response)
  handle_middleware_processed_request l w =
      let (checked, w') = check_rate_limit l w in after_own_check l checked w'
