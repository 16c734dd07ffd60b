-- ===== src/Algorithms/LeakyBucket/Flow.antt =====
-- What the leaky bucket (django_smart_ratelimit/algorithms/leaky_bucket.py) lets through.
use native.Mathlib.Nat.{mul-le-mul_right, mul-pos, lt-div-mul-add}
use django_smart_ratelimit.Prelude.{
  ℕ, ◌+◌, ◌-◌, ◌*◌, ◌/◌, ◌≤◌, ◌<◌, ◌≡◌, ◌↔◌, ap, true, false, List, [], ◌∷◌, arith, if◌then◌else◌,
}
use django_smart_ratelimit.Algorithms.Clock.{InOrder, elapsed_add}
use django_smart_ratelimit.Algorithms.LeakyBucket.{
  Bucket, Wait, wait, forever, leaked, pour, expiration,
}

module _ (unit bucket_capacity leak_rate : ℕ) where
  -- The cost that a sequence of requests, each with its time and cost, adds to a bucket.
  unfoldable pub accept : Bucket → List (ℕ × ℕ) → ℕ × Bucket
  accept b [] = (0, b)
  accept b ((now, cost) ∷ requests) =
      let (answer, _, b') = pour unit bucket_capacity leak_rate now cost b in
      let (added, final) = accept b' requests in ((if answer then cost else 0) + added, final)

  -- A request is accepted exactly when it fits on top of what has not leaked, and then its cost is
  -- added; otherwise nothing is. The bucket never passes its capacity if it did not before.
  pub pour_lem :
      (now cost : ℕ) (b : Bucket)
      → let (answer, metadata, b') = pour unit bucket_capacity leak_rate now cost b in
        ((answer ≡ true) ↔ (leaked leak_rate now b + cost ≤ bucket_capacity))
        × (b'.level ≡ leaked leak_rate now b + (if answer then cost else 0))
        × (b.level ≤ bucket_capacity → b'.level ≤ bucket_capacity)
        × (b'.last_leak ≡ now)
        × (metadata.bucket_level ≡ b'.level)
  unfolding pour leaked
  pour_lem now cost b = ground arith

  leaked-le :
      (now : ℕ) (b : Bucket) → b.level ≤ leaked leak_rate now b + (now - b.last_leak) * leak_rate
  unfolding leaked
  leaked-le now b = omega arith

  -- While the clock does not step back, the bucket holds at least what was there and what was
  -- added, less what leaked.
  pub accept-le :
      (b : Bucket) (requests : List (ℕ × ℕ))
      → b.level ≤ bucket_capacity
      → InOrder b.last_leak requests
      → let (added, final) = accept b requests in
        (b.level + added ≤ final.level + (final.last_leak - b.last_leak) * leak_rate)
        × (b.last_leak ≤ final.last_leak)
        × (final.level ≤ bucket_capacity)
  unfolding accept
  accept-le b [] full h = (omega arith, omega arith, full)
  accept-le b ((now, cost) ∷ requests) full h =
      let b' = (pour unit bucket_capacity leak_rate now cost b).2 in
      let facts = pour_lem now cost b in
      let rest = accept-le b' requests (facts.2 full) (rw facts.3 h.1) in
      let final = (accept b' requests).1 in
      let split =
        elapsed_add leak_rate b.last_leak now final.last_leak h.0
          (ground (arith, facts.3, rest.1)) in
      (
        ground (arith, facts.1, facts.3, rest.0, split, leaked-le now b),
        ground (arith, facts.3, rest.1, h.0),
        rest.2,
      )

-- While the clock does not step back, the accepted cost is at most the space that was free and
-- what leaks until the last request, and the level stays within the capacity.
pub outflow_bound :
    (unit bucket_capacity leak_rate : ℕ) (b : Bucket) (requests : List (ℕ × ℕ))
    → b.level ≤ bucket_capacity
    → InOrder b.last_leak requests
    → let (added, final) = accept unit bucket_capacity leak_rate b requests in
      (added ≤ bucket_capacity - b.level + (final.last_leak - b.last_leak) * leak_rate)
      × (final.level ≤ bucket_capacity)
outflow_bound unit bucket_capacity leak_rate b requests full h =
    let (bound, _, fits) = accept-le unit bucket_capacity leak_rate b requests full h in
    (omega arith, fits)

-- The ticks `t` are enough for a time to wait.
abbrev pub Covers : ℕ → Wait → Type 0
Covers t (wait amount rate) = amount ≤ t * rate
Covers t forever = ⊥

-- A refused request that fits into an empty bucket would be accepted, with no request in between,
-- exactly from the time that the metadata announces; never, if the bucket does not leak.
pub space_exact :
    (unit bucket_capacity leak_rate now cost t : ℕ) (b : Bucket)
    → cost ≤ bucket_capacity
    → (pour unit bucket_capacity leak_rate now cost b).0 ≡ false
    → let (_, metadata, b') = pour unit bucket_capacity leak_rate now cost b in
      ((pour unit bucket_capacity leak_rate (now + t) cost b').0 ≡ true)
      ↔ Covers t metadata.time_until_space
unfolding pour leaked
space_exact unit bucket_capacity leak_rate now cost t b fits refused =
    let gap : (now + t - now) * leak_rate ≡ t * leak_rate =
      ap (λ (x : ℕ). x * leak_rate) (omega arith) in
    (ground arith, ground arith)

-- Once the entry of a leaking bucket has expired, the bucket would be empty: losing the entry
-- loses nothing when new buckets start empty.
pub expired_is_empty :
    (second bucket_capacity leak_rate now : ℕ) (b : Bucket)
    → 0 < leak_rate
    → 0 < second
    → b.level ≤ bucket_capacity
    → b.last_leak + expiration second bucket_capacity leak_rate * second ≤ now
    → leaked leak_rate now b ≡ 0
unfolding expiration leaked
expired_is_empty second bucket_capacity leak_rate now b pos ticks full late =
    let k = leak_rate * second in
    let q = bucket_capacity / k in
    let k_pos : 0 < k = mul-pos pos ticks in
    let covers : bucket_capacity < q * k + k = lt-div-mul-add k_pos in
    let elapsed : (q + 60) * second ≤ now - b.last_leak = ground arith in
    let dripped : (q + 60) * second * leak_rate ≤ (now - b.last_leak) * leak_rate =
      mul-le-mul_right leak_rate elapsed in
    ground arith
