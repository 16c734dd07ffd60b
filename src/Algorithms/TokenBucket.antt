-- ===== src/Algorithms/TokenBucket.antt =====
-- django_smart_ratelimit/algorithms/token_bucket.py.
-- Times are clock ticks. An amount of tokens is counted in units, `period` units to a token, so
-- that the default rate of `limit / period` tokens per tick is `limit` units per tick and every
-- quotient of the source that is not a time to wait is exact. A configured rate is given in units
-- per tick. Sizes, costs and limits are natural numbers.
pub mod Rate
use django_smart_ratelimit.Prelude.{
  ℕ, ◌+◌, ◌-◌, ◌*◌, ◌/◌, ◌≡◌, refl, Bool, true, false, Option, none, some, min, Text, codes, ◌++◌,
  ltb, leb, nat_beq, get_or, if◌then◌else◌,
}
use django_smart_ratelimit.Prelude.Int.{ℤ, pos, sub_ℕ, pos_part, min_ℤ, ◌-ℤ◌}
use django_smart_ratelimit.Algorithms.Store.{
  Fetched, missing, text, not_text, attribute_error, Result, returns, raises, ◌>>=◌, type_error,
  zero_division_error, backend_error, Backend, Json,
}

pub record Bucket : Type 0 where
  pub tokens : ℕ
  pub last_refill : ℕ

-- A time to wait, as the quotient of an amount and a rate.
pub record Wait : Type 0 where
  pub amount : ℕ
  pub rate : ℕ

pub record Metadata : Type 0 where
  pub tokens_remaining : ℕ
  pub time_to_refill : Wait

pub data Decision : Type 0 where
  invalid_bucket_size no_tokens_requested : Decision
  checked : Bool → Metadata → Decision

abbrev pub allowed : Decision → Bool
allowed invalid_bucket_size = false
allowed no_tokens_requested = true
allowed (checked b _) = b

-- `x / refill_rate if refill_rate > 0 else 0`
abbrev pub wait_for : ℕ → ℕ → Wait
wait_for amount rate =
    if ltb 0 rate then record { amount = amount; rate = rate } else record { amount = 0; rate = 1 }

-- The tokens at `now`: what has dripped in since the last refill is added, up to the size. A
-- clock that stepped back adds nothing.
unfoldable pub refilled : ℕ → ℕ → ℕ → Bucket → ℕ
refilled bucket_size refill_rate now b =
    min bucket_size (b.tokens + (now - b.last_refill) * refill_rate)

-- `bucket_data["tokens"] + (current_time - bucket_data["last_refill"]) * refill_rate`, with no clamp.
unfoldable pub elapsed_refill : ℕ → ℕ → Bucket → ℤ
elapsed_refill now refill_rate b =
    sub_ℕ (b.tokens + (now - b.last_refill) * refill_rate) ((b.last_refill - now) * refill_rate)

-- What `get_info` gives.
pub record Info : Type 0 where
  pub tokens_remaining : ℤ
  pub time_to_refill : Wait
  pub last_refill : ℕ

-- The decision on a bucket, and the bucket that is written back.
unfoldable pub take_tokens : ℕ → ℕ → ℕ → ℕ → Bucket → Bool × Metadata × Bucket
unfolding refilled
take_tokens bucket_size refill_rate now tokens_requested b =
    let current_tokens = refilled bucket_size refill_rate now b in
    let remaining_tokens = current_tokens - tokens_requested in
    if leb tokens_requested current_tokens
    then (
      true,
      record {
        tokens_remaining = remaining_tokens;
        time_to_refill = wait_for (bucket_size - remaining_tokens) refill_rate;
      },
      record { tokens = remaining_tokens; last_refill = now },
    )
    else (
      false,
      record {
        tokens_remaining = current_tokens;
        time_to_refill = wait_for (tokens_requested - current_tokens) refill_rate;
      },
      record { tokens = current_tokens; last_refill = now },
    )

-- `int(math.ceil(bucket_size / refill_rate) + 60) if refill_rate > 0 else 3600`, in seconds.
unfoldable pub expiration : ℕ → ℕ → ℕ → ℕ
expiration second bucket_size refill_rate =
    if ltb 0 refill_rate
    then (bucket_size + refill_rate * second - 1) / (refill_rate * second) + 60
    else 3600

unfoldable pub bucket_key : Text → Text
bucket_key key = key ++ codes ":token_bucket"

module _ (json : Json) (store : Backend) where
  -- The bucket that a fetched value stands for; no text or bad JSON is a new bucket.
  unfoldable pub load : Fetched → Bucket → Result Bucket
  load missing new = returns new
  load attribute_error new = returns new
  load not_text new = raises type_error
  load (text t) new = elim (json.loads t) [
    | none ↦ returns new
    | some (tokens, last_refill) ↦ returns (record { tokens = tokens; last_refill = last_refill })
  ]

  -- `set` with the expiration, and without it if that raises.
  unfoldable pub save : store.State → ℕ → Text → Bucket → ℕ → Result store.State
  save s now key b seconds =
      let value = json.dumps (b.tokens, b.last_refill) in
      elim (store.set s now key value (some seconds)) [
        | some s' ↦ returns s'
        | none ↦ elim (store.set s now key value none) [
          | some s' ↦ returns s'
          | none ↦ raises backend_error
        ]
      ]

  unfoldable pub generic_token_bucket_check :
      ℕ → store.State → ℕ → Text → ℕ → ℕ → ℕ → ℕ → Result (Decision × store.State)
  generic_token_bucket_check second s now key bucket_size refill_rate initial_tokens
        tokens_requested =
      do
        b ←
            load (store.get s now (bucket_key key))
              (record { tokens = initial_tokens; last_refill = now })
        let outcome = take_tokens bucket_size refill_rate now tokens_requested b
        s' ← save s now (bucket_key key) outcome.2 (expiration second bucket_size refill_rate)
        returns (checked outcome.0 outcome.1, s')

  -- The info has no clamp: a clock that stepped back lowers the tokens, below zero even.
  unfoldable pub generic_token_bucket_info : store.State → ℕ → Text → ℕ → ℕ → Result Info
  generic_token_bucket_info s now key bucket_size refill_rate = do
    b ← load (store.get s now (bucket_key key)) (record { tokens = bucket_size; last_refill = now })
    let current_tokens = min_ℤ (pos bucket_size) (elapsed_refill now refill_rate b)
    returns (record {
      tokens_remaining = current_tokens;
      time_to_refill = wait_for (pos_part (pos bucket_size -ℤ current_tokens)) refill_rate;
      last_refill = b.last_refill;
    })

-- The configuration of `TokenBucketAlgorithm`, sizes and costs in whole tokens.
pub record TokenBucketAlgorithm : Type 0 where
  pub bucket_size : Option ℕ
  pub refill_rate : Option ℕ
  pub initial_tokens : Option ℕ
  pub tokens_per_request : ℕ

-- The units of a token, for a limit over `period` ticks.
abbrev pub units : ℕ → ℕ
units period = if nat_beq period 0 then 1 else period

-- `self.refill_rate if self.refill_rate is not None else limit / period`
abbrev pub rate_or_default : Option ℕ → ℕ → ℕ → Result ℕ
rate_or_default (some r) limit period = returns r
rate_or_default none limit period =
    if nat_beq period 0 then raises zero_division_error else returns limit

module _ (second : ℕ) (json : Json) (store : Backend) (alg : TokenBucketAlgorithm) where
  -- The backend's own `token_bucket_check`, where it has one.
  abbrev pub NativeCheck : Type 0
  NativeCheck = store.State → ℕ → Text → ℕ → ℕ → ℕ → ℕ → Result (Decision × store.State)

  unfoldable pub is_allowed :
      Option NativeCheck
      → store.State
      → ℕ
      → Text
      → ℕ
      → ℕ
      → Option ℕ
      → Result (Decision × store.State)
  is_allowed native s now key limit period kwargs_tokens =
      let bucket_size = get_or alg.bucket_size limit in
      let initial_tokens = get_or alg.initial_tokens bucket_size in
      let tokens_requested = get_or kwargs_tokens alg.tokens_per_request in
      let u = units period in
      let check = get_or native (generic_token_bucket_check json store second) in
      do
        refill_rate ← rate_or_default alg.refill_rate limit period
        if leb bucket_size 0
            then returns (invalid_bucket_size, s)
            else if leb tokens_requested 0
            then returns (no_tokens_requested, s)
            else check s now key (bucket_size * u) refill_rate (initial_tokens * u)
                (tokens_requested * u)

  unfoldable pub get_info :
      Option (store.State → ℕ → Text → ℕ → ℕ → Result Info)
      → store.State
      → ℕ
      → Text
      → ℕ
      → ℕ
      → Result Info
  get_info native s now key limit period = do
    refill_rate ← rate_or_default alg.refill_rate limit period
    get_or native (generic_token_bucket_info json store) s now key
        (get_or alg.bucket_size limit * units period) refill_rate
