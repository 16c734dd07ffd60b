-- ===== src/Concurrency.antt =====
-- django_smart_ratelimit/concurrency.py: the synchronous wrapper of `concurrency_limit`, over the
-- memory backend. The view answers or raises, and may itself change the backend.
mod Tests
use django_smart_ratelimit.Prelude.{
  ℕ, ◌≡◌, refl, ap, ◌∙◌, inl, inr, Bool, true, false, not, ◌&&◌, Option, none, some, ◌++◌, arith,
  Text, text_key, text_beq_iff, codes, Bool-cases, if◌then◌else◌,
}
use django_smart_ratelimit.Prelude.Dict
use django_smart_ratelimit.Backends.Memory.{MemoryBackend}
use django_smart_ratelimit.Backends.Memory.Semaphore.{
  holders, concurrency_acquire, concurrency_release, holders-release,
}
use django_smart_ratelimit.Decorator.Handlers.{Attempt}

-- The arguments of the decorator, and the name of the slot that this request takes.
pub record ConcurrencyLimit : Type 0 where
  pub max_concurrent : ℕ
  pub ttl : ℕ
  pub block : Bool
  pub member : Text

-- What the wrapper gives: how the view ended, or the response of a limit that is reached.
pub data Reply (Response : Type 0) : Type 0 where
  ended : Attempt Response → Reply Response
  over_capacity : Reply Response

unfoldable pub resolve_concurrency_key : Text → Text
resolve_concurrency_key generated = codes "concurrency:" ++ generated

module _ {Response : Type 0} (func : MemoryBackend → Attempt Response × MemoryBackend) where
  -- `try` the view, `finally` give the slot back if one was taken.
  unfoldable pub run_holding : Bool → Text → Text → MemoryBackend → Reply Response × MemoryBackend
  run_holding acquired limit_key member s =
      let (result, s') = func s in
      (ended result, if acquired then concurrency_release s' limit_key member else s')

  -- `none` for the key is a call without a request.
  unfoldable pub wrapper :
      ConcurrencyLimit → MemoryBackend → ℕ → Option Text → Reply Response × MemoryBackend
  wrapper l s now none = let (result, s') = func s in (ended result, s')
  wrapper l s now (some generated) =
      let limit_key = resolve_concurrency_key generated in
      let (s', acquired) = concurrency_acquire s now limit_key l.max_concurrent l.ttl l.member in
      if not acquired && l.block
      then (over_capacity, s')
      else run_holding acquired limit_key l.member s'

  -- A request that is granted a slot has given it back when the wrapper ends, whether the view
  -- answers or raises and whatever it does to the backend; the wrapper ends the way the view does.
  pub slot_given_back :
      (l : ConcurrencyLimit) (s s' : MemoryBackend) (now : ℕ) (generated : Text)
      → let limit_key = resolve_concurrency_key generated in
        concurrency_acquire s now limit_key l.max_concurrent l.ttl l.member ≡ (s', true)
        → let (reply, final) = wrapper l s now (some generated) in
          (reply ≡ ended (func s').0) × (Dict.get (holders final limit_key) l.member ≡ none)
  unfolding wrapper run_holding
  slot_given_back l s s' now generated granted =
      let limit_key = resolve_concurrency_key generated in
      let final = concurrency_release (func s').1 limit_key l.member in
      let left : holders final limit_key ≡ Dict.remove (holders (func s').1 limit_key) l.member =
        ground (
          arith,
          holders-release (func s').1 limit_key limit_key l.member,
          text_beq_iff limit_key limit_key,
        ) in
      let gone : Dict.get (holders final limit_key) l.member ≡ none = ground (
        arith,
        left,
        Dict.get-remove (holders (func s').1 limit_key) l.member l.member,
        text_beq_iff l.member l.member,
      ) in
      rw granted (refl, gone)
