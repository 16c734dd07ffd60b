-- ===== src/Backends/Memory/Buckets.antt =====
-- django_smart_ratelimit/backends/memory.py: `token_bucket_check` and `token_bucket_info`.
-- Tokens are counted in units, and rates in units per millisecond. A method reads the clock once.
use native.Mathlib.Nat.{mul-le-mul_right, lt-div-mul-add}
use django_smart_ratelimit.Prelude.{
  ℕ, ◌+◌, ◌-◌, ◌*◌, ◌/◌, ◌≤◌, ◌<◌, ◌≡◌, Bool, true, false, none, some, arith, Text, codes, ◌++◌,
  text_key, ltb, leb, max, if◌then◌else◌,
}
use django_smart_ratelimit.Prelude.Int.{ℤ, pos, pos_part, sub_ℕ, min_ℤ, ◌-ℤ◌, ◌+ℤ◌}
use django_smart_ratelimit.Prelude.Dict
use django_smart_ratelimit.Prelude.Dict.{Dict}
use django_smart_ratelimit.Algorithms.TokenBucket
use django_smart_ratelimit.Backends.Utils.{millis, Wait, wait, never, calculate_token_bucket_state}
use django_smart_ratelimit.Backends.Memory.{
  TokenBucketState, MemoryConfig, MemoryBackend, cleanup_if_needed,
}
use django_smart_ratelimit.Backends.Base.{Outcome, ok, backend_error}
use django_smart_ratelimit.Backends.Memory.Counters.{normalized}

-- `_token_bucket_expiry`. The time is a quotient, rounded up: a reading of the clock is at least
-- the quotient exactly when it is at least this.
unfoldable pub token_bucket_expiry : MemoryConfig → ℕ → ℕ → ℕ → ℕ
token_bucket_expiry c current_time bucket_size refill_rate =
    current_time
    + (if ltb 0 refill_rate
        then max ((bucket_size + refill_rate - 1) / refill_rate) (millis c.cleanup_interval)
        else millis c.cleanup_interval)

-- The fields of the metadata that the check decides.
pub record Metadata : Type 0 where
  pub tokens_remaining : ℤ
  pub time_to_refill : Wait

unfoldable pub bucket_key : MemoryConfig → Text → Text
bucket_key c key = normalized c key ++ codes ":token_bucket"

-- The bucket of a key, or a new one.
unfoldable pub bucket : MemoryConfig → MemoryBackend → ℕ → Text → ℕ → ℕ → ℕ → TokenBucketState
bucket c s now key bucket_size refill_rate initial_tokens = elim (Dict.get s.token_buckets key) [
  | some b ↦ b
  | none ↦ record {
    tokens = pos initial_tokens;
    last_refill = now;
    expires_at = token_bucket_expiry c now bucket_size refill_rate;
  }
]

-- The decision, and the backend with the bucket written back, before the cleanup.
unfoldable pub decide :
    MemoryConfig → MemoryBackend → ℕ → Text → ℕ → ℕ → ℕ → ℕ → Bool × Metadata × MemoryBackend
decide c s now key bucket_size refill_rate initial_tokens tokens_requested =
    let b = bucket c s now key bucket_size refill_rate initial_tokens in
    let state =
      calculate_token_bucket_state b.tokens b.last_refill now bucket_size refill_rate
        tokens_requested in
    let left = if state.is_allowed then state.tokens_remaining else state.current_tokens in
    let b' : TokenBucketState = record {
      tokens = left;
      last_refill = now;
      expires_at = token_bucket_expiry c now bucket_size refill_rate;
    } in
    (
      state.is_allowed,
      record { tokens_remaining = left; time_to_refill = state.time_to_refill },
      record s { token_buckets = Dict.put (Dict.move_to_end s.token_buckets key) key b' },
    )

unfoldable pub token_bucket_check :
    MemoryConfig
    → MemoryBackend
    → ℕ
    → Text
    → ℕ
    → ℕ
    → ℕ
    → ℕ
    → Outcome (Bool × Metadata) × MemoryBackend
token_bucket_check c s now key bucket_size refill_rate initial_tokens tokens_requested =
    if leb bucket_size 0
    then (ok (false, record { tokens_remaining = pos 0; time_to_refill = never }), s)
    else (let (answer, metadata, written) =
          decide c s now (bucket_key c key) bucket_size refill_rate initial_tokens
            tokens_requested in
        elim (cleanup_if_needed c written now) [
          | some s' ↦ (ok (answer, metadata), s')
          | none ↦ (
            if c.fail_open
                then ok
                    (true, record { tokens_remaining = pos bucket_size; time_to_refill = wait 0 1 })
                else backend_error,
            written,
          )
        ])

-- The time to refill is the last refill's in the info, too.
unfoldable pub token_bucket_info : MemoryConfig → MemoryBackend → ℕ → Text → ℕ → ℕ → Metadata × ℕ
token_bucket_info c s now key bucket_size refill_rate =
    elim (Dict.get s.token_buckets (bucket_key c key)) [
      | none ↦ (record { tokens_remaining = pos bucket_size; time_to_refill = wait 0 1 }, now)
      | some b ↦
          (let tokens = min_ℤ (pos bucket_size) (
              b.tokens
              +ℤ sub_ℕ ((now - b.last_refill) * refill_rate)
                  ((b.last_refill - now) * refill_rate)) in
            (
              record {
                tokens_remaining = tokens;
                time_to_refill =
                    if ltb 0 refill_rate
                    then wait (pos_part (pos bucket_size -ℤ tokens)) refill_rate
                    else wait 0 1;
              },
              b.last_refill,
            ))
    ]

-- While the clock does not step back, the backend's calculation for a request of at least one unit
-- is that of the generic token bucket: the same decision, and the same tokens left.
pub state_agrees :
    (tokens last_refill now bucket_size refill_rate tokens_requested : ℕ)
    → last_refill ≤ now
    → 0 < tokens_requested
    → let state =
        calculate_token_bucket_state
          (pos tokens)
          last_refill
          now
          bucket_size
          refill_rate
          tokens_requested in
      let (answer, metadata, b) =
        TokenBucket.take_tokens bucket_size refill_rate now tokens_requested
          (record { tokens = tokens; last_refill = last_refill }) in
      (state.is_allowed ≡ answer) × (state.tokens_remaining ≡ pos b.tokens)
unfolding calculate_token_bucket_state TokenBucket.take_tokens TokenBucket.refilled ◌+ℤ◌ ◌-ℤ◌
state_agrees tokens last_refill now bucket_size refill_rate tokens_requested order positive =
    let none_back : (last_refill - now) * refill_rate ≡ 0 = grind arith in
    (ground arith, ground arith)

-- Where the clock has stepped back far enough, the backend refuses a request whose tokens are in
-- the bucket, while the generic token bucket serves it.
pub clock_back_refuses :
    (tokens last_refill now bucket_size refill_rate tokens_requested : ℕ)
    → 0 < tokens_requested
    → tokens_requested ≤ tokens
    → tokens ≤ bucket_size
    → tokens < tokens_requested + (last_refill - now) * refill_rate
    → let state =
        calculate_token_bucket_state
          (pos tokens)
          last_refill
          now
          bucket_size
          refill_rate
          tokens_requested in
      (state.is_allowed ≡ false)
      × ((TokenBucket.take_tokens bucket_size refill_rate now tokens_requested
            (record { tokens = tokens; last_refill = last_refill })).0
          ≡ true)
unfolding calculate_token_bucket_state TokenBucket.take_tokens TokenBucket.refilled ◌+ℤ◌
clock_back_refuses tokens last_refill now bucket_size refill_rate tokens_requested p q r short =
    let back : now ≤ last_refill = grind arith in
    let none_forward : (now - last_refill) * refill_rate ≡ 0 = grind arith in
    (ground arith, ground arith)

-- A bucket whose expiry has been reached would be full, so that pruning it loses nothing when new
-- buckets start full.
pub expired_bucket_is_full :
    (c : MemoryConfig) (tokens written now bucket_size refill_rate tokens_requested : ℕ)
    → 0 < refill_rate
    → token_bucket_expiry c written bucket_size refill_rate ≤ now
    → (calculate_token_bucket_state
        (pos tokens)
        written
        now
        bucket_size
        refill_rate
        tokens_requested).current_tokens
      ≡ pos bucket_size
unfolding token_bucket_expiry calculate_token_bucket_state ◌+ℤ◌
expired_bucket_is_full c tokens written now bucket_size refill_rate tokens_requested pos_rate late =
    let q = (bucket_size + refill_rate - 1) / refill_rate in
    let covers : bucket_size + refill_rate - 1 < q * refill_rate + refill_rate =
      lt-div-mul-add pos_rate in
    let elapsed : q ≤ now - written = ground arith in
    let dripped : q * refill_rate ≤ (now - written) * refill_rate =
      mul-le-mul_right refill_rate elapsed in
    let none_back : (written - now) * refill_rate ≡ 0 = grind arith in ground arith
