-- ===== src/Algorithms/TokenBucket/Rate.antt =====
-- What the token bucket (django_smart_ratelimit/algorithms/token_bucket.py) lets through.
use native.Mathlib.Nat.{mul-le-mul_right, mul-pos, lt-div-mul-add}
use django_smart_ratelimit.Prelude.{
  ℕ, ◌+◌, ◌-◌, ◌*◌, ◌/◌, ◌≤◌, ◌<◌, ◌≡◌, ◌↔◌, true, List, [], ◌∷◌, arith, if◌then◌else◌,
}
use django_smart_ratelimit.Algorithms.Clock.{InOrder, elapsed_add}
use django_smart_ratelimit.Algorithms.TokenBucket.{Bucket, refilled, take_tokens, expiration}

module _ (bucket_size refill_rate : ℕ) where
  -- The tokens that requests, each with its time and cost, take from a bucket one after the other,
  -- and the bucket that is left.
  unfoldable pub serve : Bucket → List (ℕ × ℕ) → ℕ × Bucket
  serve b [] = (0, b)
  serve b ((now, cost) ∷ requests) =
      let (answer, _, b') = take_tokens bucket_size refill_rate now cost b in
      let (taken, final) = serve b' requests in ((if answer then cost else 0) + taken, final)

  -- A request is served exactly when its cost is there, and then its cost is taken; otherwise
  -- nothing is. Either way the bucket holds at most its size and remembers the time.
  pub take_tokens_lem :
      (now cost : ℕ) (b : Bucket)
      → let (answer, metadata, b') = take_tokens bucket_size refill_rate now cost b in
        ((answer ≡ true) ↔ (cost ≤ refilled bucket_size refill_rate now b))
        × (b'.tokens + (if answer then cost else 0) ≡ refilled bucket_size refill_rate now b)
        × (b'.tokens ≤ bucket_size)
        × (b'.last_refill ≡ now)
        × (metadata.tokens_remaining ≡ b'.tokens)
  unfolding take_tokens refilled
  take_tokens_lem now cost b = ground arith

  refilled-le :
      (now : ℕ) (b : Bucket)
      → refilled bucket_size refill_rate now b ≤ b.tokens + (now - b.last_refill) * refill_rate
  unfolding refilled
  refilled-le now b = omega arith

  refilled-capped : (now : ℕ) (b : Bucket) → refilled bucket_size refill_rate now b ≤ bucket_size
  unfolding refilled
  refilled-capped now b = omega arith

  -- While the clock does not step back, what is taken and what is left is at most what was there
  -- and what has dripped in; the last refill lies between the first and the last.
  pub serve-le :
      (b : Bucket) (requests : List (ℕ × ℕ))
      → InOrder b.last_refill requests
      → let (taken, final) = serve b requests in
        (taken + final.tokens ≤ b.tokens + (final.last_refill - b.last_refill) * refill_rate)
        × (b.last_refill ≤ final.last_refill)
  unfolding serve
  serve-le b [] h = (omega arith, omega arith)
  serve-le b ((now, cost) ∷ requests) h =
      let b' = (take_tokens bucket_size refill_rate now cost b).2 in
      let facts = take_tokens_lem now cost b in
      let rest = serve-le b' requests (rw facts.3 h.1) in
      let final = (serve b' requests).1 in
      let split =
        elapsed_add refill_rate b.last_refill now final.last_refill h.0
          (ground (arith, facts.3, rest.1)) in
      (
        ground (arith, facts.1, facts.3, rest.0, split, refilled-le now b),
        ground (arith, facts.3, rest.1, h.0),
      )

-- While the clock does not step back, requests take from a bucket, however full it was, no more
-- than its size and what drips in from the first of them to the last.
pub burst_bound :
    (bucket_size refill_rate : ℕ) (b : Bucket) (now cost : ℕ) (requests : List (ℕ × ℕ))
    → InOrder now requests
    → let (taken, final) = serve bucket_size refill_rate b ((now, cost) ∷ requests) in
      taken ≤ bucket_size + (final.last_refill - now) * refill_rate
unfolding serve
burst_bound bucket_size refill_rate b now cost requests h =
    let b' = (take_tokens bucket_size refill_rate now cost b).2 in
    let facts = take_tokens_lem bucket_size refill_rate now cost b in
    let rest = serve-le bucket_size refill_rate b' requests (rw facts.3 h) in
    ground (arith, facts.1, facts.3, rest.0, refilled-capped bucket_size refill_rate now b)

-- Once the entry of a bucket with a positive rate has expired, the bucket would be full: losing
-- the entry loses nothing when new buckets start full.
pub expired_is_full :
    (second bucket_size refill_rate now : ℕ) (b : Bucket)
    → 0 < refill_rate
    → 0 < second
    → b.last_refill + expiration second bucket_size refill_rate * second ≤ now
    → refilled bucket_size refill_rate now b ≡ bucket_size
unfolding expiration refilled
expired_is_full second bucket_size refill_rate now b pos ticks late =
    let k = refill_rate * second in
    let q = (bucket_size + k - 1) / k in
    let k_pos : 0 < k = mul-pos pos ticks in
    let covers : bucket_size + k - 1 < q * k + k = lt-div-mul-add k_pos in
    let elapsed : (q + 60) * second ≤ now - b.last_refill = ground arith in
    let dripped : (q + 60) * second * refill_rate ≤ (now - b.last_refill) * refill_rate =
      mul-le-mul_right refill_rate elapsed in
    ground arith
