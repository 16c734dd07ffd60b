-- ===== src/Backends/Utils/Retry.antt =====
-- django_smart_ratelimit/backends/utils.py: `with_retry` and
-- `BackendOperationMixin._execute_with_retry`, over an operation on a state. Delays are whole
-- units of time, and the base of the backoff is a whole number.
use django_smart_ratelimit.Prelude.{
  ℕ, zero, suc, ◌+◌, ◌-◌, ◌*◌, ◌^◌, ◌≤◌, ◌≡◌, ap, refl, ◌≢◌, Bool, true, false, Option, none, some,
  List, [], ◌∷◌, arith, min, max, ltb, ◌⊎◌, inl, inr, length, count_if, if◌then◌else◌,
}

-- How an attempt ends: with a value, with an exception that is caught, or with another one.
pub data Attempt {ℓ} (A : Type ℓ) : Type ℓ where
  returned : A → Attempt A
  raised : Attempt A
  escaped : Attempt A

raised_or_not {ℓ} : {A : Type ℓ} (r : Attempt A) → (r ≡ raised) ⊎ (r ≢ raised)
raised_or_not (returned a) = inr (cc)
raised_or_not raised = inl refl
raised_or_not escaped = inr (cc)

pub record RetryConfig : Type 0 where
  pub max_retries : ℕ
  pub delay : ℕ
  pub max_delay : ℕ
  pub exponential_backoff : Bool
  pub exponential_base : ℕ

-- The callback `on_retry`, where there is one, is told the number of the attempt that failed; it
-- returns, or raises, which is `false`. Without it the failure is logged.
unfoldable pub notified {κ} : {S : Type κ} → Option (ℕ → S → Bool × S) → ℕ → S → Bool × S
notified none attempt s = (true, s)
notified (some on_retry) attempt s = on_retry attempt s

module _ {ℓ κ} {A : Type ℓ} {S : Type κ} (operation : S → Attempt A × S) where
  -- The attempts that are left, with the delay before the next one. What was slept is listed. An
  -- exception of the callback ends the loop.
  unfoldable pub retries :
      Option (ℕ → S → Bool × S) → RetryConfig → ℕ → ℕ → S → Attempt A × List ℕ × S
  unfolding notified
  retries on_retry c zero current_delay s = let (result, s') = operation s in (result, [], s')
  retries on_retry c (suc left) current_delay s =
      let (result, s') = operation s in
      elim result [
        | returned a ↦ (returned a, [], s')
        | escaped ↦ (escaped, [], s')
        | raised ↦
            (let next_delay =
                if c.exponential_backoff
                then min (current_delay * c.exponential_base) c.max_delay
                else current_delay in
              let (returned_too, told) = notified on_retry (c.max_retries - left) s' in
              let (last, slept, s'') = retries on_retry c left next_delay told in
              if returned_too then (last, current_delay ∷ slept, s'') else (escaped, [], told))
      ]

  unfoldable pub with_retry : Option (ℕ → S → Bool × S) → RetryConfig → S → Attempt A × List ℕ × S
  unfolding retries
  with_retry on_retry c s = retries on_retry c c.max_retries c.delay s

  -- The attempts of `_execute_with_retry`, which sleep `retry_delay * 2 ** attempt`.
  unfoldable pub executions : ℕ → ℕ → ℕ → S → Attempt A × List ℕ × S
  executions retry_delay zero attempt s = let (result, s') = operation s in (result, [], s')
  executions retry_delay (suc left) attempt s =
      let (result, s') = operation s in
      elim result [
        | returned a ↦ (returned a, [], s')
        | escaped ↦ (escaped, [], s')
        | raised ↦
            (let (last, slept, s'') = executions retry_delay left (attempt + 1) s' in
              (last, retry_delay * 2 ^ attempt ∷ slept, s''))
      ]

  unfoldable pub execute_with_retry : ℕ → ℕ → S → Attempt A × List ℕ × S
  unfolding executions
  execute_with_retry max_retries retry_delay s = executions retry_delay max_retries 0 s

  -- The state after some attempts.
  abbrev pub after_attempts : ℕ → S → S
  after_attempts zero s = s
  after_attempts (suc n) s = after_attempts n (operation s).1

  -- The first attempts all raise an exception that is caught.
  abbrev pub all_raise : ℕ → S → Bool
  all_raise zero s = true
  all_raise (suc n) s = elim (operation s).0 [
    | returned _ ↦ false
    | escaped ↦ false
    | raised ↦ all_raise n (operation s).1
  ]

  -- How a run of attempts went: how many raised before the last, which ended it or was the last
  -- that was allowed, and how long each sleep was at most.
  pub record IsRun (left bound : ℕ) (s : S) (run : Attempt A × List ℕ × S) : Type (ℓ ⊔ κ) where
    pub raises : ℕ
    pub allowed : raises ≤ left
    pub raised_before : all_raise raises s ≡ true
    pub ended : (raises ≡ left) ⊎ ((operation (after_attempts raises s)).0 ≢ raised)
    pub result_eq : run.0 ≡ (operation (after_attempts raises s)).0
    pub sleeps_eq : length run.1 ≡ raises
    pub state_eq : run.2 ≡ after_attempts (suc raises) s
    pub short : count_if (λ d. ltb bound d) run.1 ≡ 0

  -- An attempt that does not raise what is caught is the last.
  stopped_result :
      (c : RetryConfig) (left delay : ℕ) (s : S)
      → (operation s).0 ≢ raised
      → (retries none c (suc left) delay s).0 ≡ (operation s).0
  unfolding retries
  stopped_result c left delay s other = ground arith

  stopped_sleeps :
      (c : RetryConfig) (left delay : ℕ) (s : S)
      → (operation s).0 ≢ raised
      → (retries none c (suc left) delay s).1 ≡ []
  unfolding retries
  stopped_sleeps c left delay s other = ground arith

  stopped_state :
      (c : RetryConfig) (left delay : ℕ) (s : S)
      → (operation s).0 ≢ raised
      → (retries none c (suc left) delay s).2 ≡ (operation s).1
  unfolding retries
  stopped_state c left delay s other = ground arith

  retries-IsRun :
      (c : RetryConfig) (left delay bound : ℕ) (s : S)
      → delay ≤ bound
      → c.max_delay ≤ bound
      → IsRun left bound s (retries none c left delay s)
  unfolding retries
  retries-IsRun c zero delay bound s le le' = record {
    raises = 0;
    allowed = omega arith;
    raised_before = refl;
    ended = inl refl;
    result_eq = refl;
    sleeps_eq = refl;
    state_eq = refl;
    short = refl;
  }
  retries-IsRun c (suc left) delay bound s le le' =
      let next_delay =
        if c.exponential_backoff then min (delay * c.exponential_base) c.max_delay else delay in
      let rest = retries-IsRun c left next_delay bound (operation s).1 (ground arith) le' in
      elim (raised_or_not (operation s).0) [
        | inr other ↦ record {
          raises = 0;
          allowed = omega arith;
          raised_before = refl;
          ended = inr other;
          result_eq = stopped_result c left delay s other;
          sleeps_eq = ap (λ (l : List ℕ). length l) (stopped_sleeps c left delay s other);
          state_eq = stopped_state c left delay s other;
          short = ap (count_if (λ d. ltb bound d)) (stopped_sleeps c left delay s other);
        }
        | inl e ↦ record {
          raises = suc rest.raises;
          allowed = omega (arith, rest.allowed);
          raised_before = ground (arith, rest.raised_before);
          ended = ground (arith, rest.ended);
          result_eq = ground (arith, rest.result_eq);
          sleeps_eq = ground (arith, rest.sleeps_eq);
          state_eq = ground (arith, rest.state_eq);
          short = ground (arith, rest.short);
        }
      ]

  -- Without a callback, a retried operation makes at most `max_retries` attempts after the first, stops at the first
  -- that does not raise, and gives the last one's result; no sleep is longer than the larger of
  -- the delay and the maximal delay.
  pub with_retry-IsRun :
      (c : RetryConfig) (s : S)
      → IsRun c.max_retries (max c.delay c.max_delay) s (with_retry none c s)
  unfolding with_retry
  with_retry-IsRun c s =
      retries-IsRun c c.max_retries c.delay (max c.delay c.max_delay) s (omega arith) (omega arith)
