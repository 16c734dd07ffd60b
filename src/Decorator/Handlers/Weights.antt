-- ===== src/Decorator/Handlers/Weights.antt =====
-- What a request with a cost takes from its limit: `check_rate_limit` of
-- django_smart_ratelimit/decorator.py over the memory backend
-- (django_smart_ratelimit/backends/memory.py), whose `increment` is the one of
-- django_smart_ratelimit/backends/base.py. One reading of the clock serves the whole check.
use django_smart_ratelimit.Prelude.{
  ℕ, zero, suc, ◌+◌, ◌-◌, ◌≤◌, ◌≡◌, refl, ap, sym, ◌∙◌, true, Option, some, List, ◌∷◌, Text,
  text_key, leb, length, count_if, arith,
}
use django_smart_ratelimit.Backends.Base
use django_smart_ratelimit.Backends.Base.{Outcome, ok}
use django_smart_ratelimit.Backends.Memory.{MemoryConfig, MemoryBackend}
use django_smart_ratelimit.Backends.Memory.Counters.{normalized, incr}
use django_smart_ratelimit.Backends.Memory.Window.Exact.{
  Call, after, ordered, counts_for, sliding_window_exact,
}
use django_smart_ratelimit.Decorator.Handlers.{
  backend_error, Attempt, returns, raises, Action, ◌>>=◌, done, Context, Limit, Callees, repeated,
  counted_by, check_rate_limit,
}
use django_smart_ratelimit.Decorator.Handlers.Actions.{>>=-returns}

-- A method of a backend as the decorator sees it.
abbrev pub attempt : {A : Type 0} → Outcome A × MemoryBackend → Attempt A × MemoryBackend
attempt (ok a, s) = (returns a, s)
attempt (Outcome.backend_error, s) = (raises backend_error, s)

-- `increment` of the memory backend, at a time.
unfoldable pub increment_at : MemoryConfig → ℕ → Text → Text → ℕ → ℕ → Action MemoryBackend (ℕ × ℕ)
unfolding Base.increment
increment_at mc now uid key period limit s =
    attempt (Base.increment (λ s key period. incr mc s now key period uid) s key period limit)

-- Calls, the last first, with one call so many times before them.
abbrev pub again : ℕ → Call → List Call → List Call
again zero call calls = calls
again (suc n) call calls = again n call (call ∷ calls)

module _ (mc : MemoryConfig) (start now period limit : ℕ) (key uid : Text)
    (sliding : mc.sliding_window ≡ true) (lasts : 1 ≤ period) where
  counts : List Call → ℕ
  counts calls = count_if (counts_for mc period now key) calls

  -- A call at `now` counts at `now`.
  counts_once : (calls : List Call) → counts ((now, key, uid) ∷ calls) ≡ suc (counts calls)
  unfolding counts counts_for normalized
  counts_once calls = ground (arith, text_key.same_iff (normalized mc key) (normalized mc key))

  increment_lem :
      (calls : List Call)
      → ordered now calls ≡ true
      → suc (length calls) ≤ mc.max_keys
      → let n = suc (counts calls) in
        increment_at mc now uid key period limit (after mc period start calls)
        ≡ (returns (n, limit - n), after mc period start ((now, key, uid) ∷ calls))
  unfolding counts increment_at after
  increment_lem calls order fits =
      let told = sliding_window_exact mc period start calls now key uid sliding order fits in
      ground (arith, told)

  repeated_lem :
      (left : ℕ) (calls : List Call) (counted : ℕ × ℕ)
      → counted ≡ (counts calls, limit - counts calls)
      → ordered now calls ≡ true
      → length calls + left ≤ mc.max_keys
      → let n = counts calls + left in
        repeated
          (increment_at mc now uid key period limit)
          left
          counted
          (after mc period start calls)
        ≡ (returns (n, limit - n), after mc period start (again left (now, key, uid) calls))
  unfolding repeated
  repeated_lem zero calls counted e order fits =
      let same : counts calls ≡ counts calls + 0 = omega arith in
      ap (λ (p : ℕ × ℕ). (returns p, after mc period start calls)) e
      ∙ ap (λ (n : ℕ). (returns (n, limit - n), after mc period start calls)) same
  repeated_lem (suc left) calls counted e order fits =
      let count = increment_at mc now uid key period limit in
      let here = after mc period start calls in
      let more : List Call = (now, key, uid) ∷ calls in
      let n = suc (counts calls) in
      let once : n ≡ counts more = sym (counts_once calls) in
      let order' : ordered now more ≡ true = unfold ordered in ground arith in
      let rest =
        repeated_lem left more (n, limit - n) (ap (λ (k : ℕ). (k, limit - k)) once) order'
          (omega arith) in
      let total : counts more + left ≡ counts calls + suc left = omega (arith, counts_once calls) in
      let final = after mc period start (again left (now, key, uid) more) in
      >>=-returns count here (after mc period start more) (repeated count left) (n, limit - n)
        (increment_lem calls order (omega arith))
      ∙ rest
      ∙ ap (λ (k : ℕ). (returns (k, limit - k), final)) total

-- Over a memory backend with the sliding window that has served calls with one period of at least a
-- second, while the clock does not step back and the calls and the cost are no more than `max_keys`,
-- and where asking for the time of the reset does not raise and leaves the backend as it is, a
-- request of a cost of at least 1 is counted as often as it costs, also if it is refused. It is
-- allowed exactly when the calls for its normalized key that are less than a period old, and its
-- cost, are within the limit, and what it is told to remain is what they leave of the limit.
pub weighted_check :
    {Response : Type 0} (c : Callees MemoryBackend Response) (l : Limit) (mc : MemoryConfig)
    (start now : ℕ) (uid : Text) (calls : List Call) (reset : Option ℕ)
    → mc.sliding_window ≡ true
    → 1 ≤ l.period
    → 1 ≤ l.cost
    → ordered now calls ≡ true
    → length calls + l.cost ≤ mc.max_keys
    → c.increment ≡ some (increment_at mc now uid)
    → c.get_reset_time l.key l.period
        (after mc l.period start (again l.cost (now, l.key, uid) calls))
      ≡ (returns reset, after mc l.period start (again l.cost (now, l.key, uid) calls))
    → let n = count_if (counts_for mc l.period now l.key) calls + l.cost in
      check_rate_limit c l (after mc l.period start calls) ≡ (
        returns (record { allowed = leb n l.limit; remaining = l.limit - n; reset_time = reset }),
        after mc l.period start (again l.cost (now, l.key, uid) calls),
      )
unfolding check_rate_limit counted_by
weighted_check c l mc start now uid calls reset sliding lasts cost order fits here resets =
    let left = suc (l.cost - 1) in
    let whole : left ≡ l.cost = omega arith in
    let before = after mc l.period start calls in
    let final : ℕ → MemoryBackend =
      λ k. after mc l.period start (again k (now, l.key, uid) calls) in
    let n : ℕ → ℕ = λ k. count_if (counts_for mc l.period now l.key) calls + k in
    let context : ℕ × ℕ → Option ℕ → Context = λ counted reset. record {
      allowed = leb counted.0 l.limit;
      remaining = counted.1;
      reset_time = reset;
    } in
    let counting : counted_by c (some (increment_at mc now uid)) l before
        ≡ (returns (n left, l.limit - n left), final left) =
      unfold repeated counts in
      repeated_lem mc start now l.period l.limit l.key uid sliding lasts left calls
        (
          counts mc start now l.period l.limit l.key uid sliding lasts calls,
          l.limit - counts mc start now l.period l.limit l.key uid sliding lasts calls,
        )
        refl order (omega arith) in
    let counting' : counted_by c c.increment l before
        ≡ (returns (n left, l.limit - n left), final left) =
      rw here counting in
    let ending : ℕ × ℕ → Action MemoryBackend Context =
      λ counted. c.get_reset_time l.key l.period >>= λ reset. done (context counted reset) in
    >>=-returns (counted_by c c.increment l) before (final left) ending (n left, l.limit - n left)
      counting'
    ∙ >>=-returns (c.get_reset_time l.key l.period) (final left) (final left)
        (λ reset. done (context (n left, l.limit - n left) reset)) reset (rw whole resets)
    ∙ ap (λ (k : ℕ). (returns (context (n k, l.limit - n k) reset), final k)) whole
