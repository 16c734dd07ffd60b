-- ===== src/Algorithms/LeakyBucket.antt =====
-- django_smart_ratelimit/algorithms/leaky_bucket.py, with the times and units of TokenBucket: a
-- clock tick leaks `leak_rate` units, and a request of cost 1 is `period` units.
pub mod Flow
use django_smart_ratelimit.Prelude.{
  ℕ, ◌+◌, ◌-◌, ◌*◌, ◌/◌, ◌≡◌, Bool, true, false, Option, none, some, Text, codes, ◌++◌, ltb, leb,
  nat_beq, get_or, if◌then◌else◌,
}
use django_smart_ratelimit.Prelude.Int.{ℤ, sub_ℕ}
use django_smart_ratelimit.Algorithms.Store.{
  Fetched, missing, text, not_text, attribute_error, Result, returns, raises, ◌>>=◌, type_error,
  zero_division_error, backend_error, Backend, Json,
}
use django_smart_ratelimit.Algorithms.TokenBucket.{units, rate_or_default}

pub record Bucket : Type 0 where
  pub level : ℕ
  pub last_leak : ℕ

-- A time to wait, as the quotient of an amount and a rate, or for ever.
pub data Wait : Type 0 where
  wait : ℕ → ℕ → Wait
  forever : Wait

pub record Metadata : Type 0 where
  pub bucket_level : ℕ
  pub space_remaining : ℕ
  pub time_until_space : Wait

pub data Decision : Type 0 where
  invalid_bucket_capacity no_request_cost : Decision
  checked : Bool → Metadata → Decision

-- `x / leak_rate if leak_rate > 0 else float("inf")`
abbrev pub wait_for : ℕ → ℕ → Wait
wait_for amount rate = if ltb 0 rate then wait amount rate else forever

-- The level at `now`. A clock that stepped back leaks nothing; the level stays at 0 or above.
unfoldable pub leaked : ℕ → ℕ → Bucket → ℕ
leaked leak_rate now b = b.level - (now - b.last_leak) * leak_rate

-- The decision on a bucket, and the bucket that is written back; `unit` is one unit of space.
unfoldable pub pour : ℕ → ℕ → ℕ → ℕ → ℕ → Bucket → Bool × Metadata × Bucket
unfolding leaked
pour unit bucket_capacity leak_rate now request_cost b =
    let current_level = leaked leak_rate now b in
    let new_level = current_level + request_cost in
    let space_remaining = bucket_capacity - new_level in
    if leb new_level bucket_capacity
    then (
      true,
      record {
        bucket_level = new_level;
        space_remaining = space_remaining;
        time_until_space = if ltb 0 space_remaining then wait 0 1 else wait_for unit leak_rate;
      },
      record { level = new_level; last_leak = now },
    )
    else (
      false,
      record {
        bucket_level = current_level;
        space_remaining = bucket_capacity - current_level;
        time_until_space = wait_for (new_level - bucket_capacity) leak_rate;
      },
      record { level = current_level; last_leak = now },
    )

-- `int((bucket_capacity / leak_rate) + 60) if leak_rate > 0 else 3600`, in seconds.
unfoldable pub expiration : ℕ → ℕ → ℕ → ℕ
expiration second bucket_capacity leak_rate =
    if ltb 0 leak_rate then bucket_capacity / (leak_rate * second) + 60 else 3600

unfoldable pub bucket_key : Text → Text
bucket_key key = key ++ codes ":leaky_bucket"

-- What `get_info` gives; the space is negative when the level passes the capacity.
pub record Info : Type 0 where
  pub current_level : ℕ
  pub space : ℤ
  pub time_to_empty : ℕ × ℕ
  pub last : ℕ

module _ (json : Json) (store : Backend) where
  unfoldable pub load : Fetched → Bucket → Result Bucket
  load missing new = returns new
  load attribute_error new = returns new
  load not_text new = raises type_error
  load (text t) new = elim (json.loads t) [
    | none ↦ returns new
    | some (level, last_leak) ↦ returns (record { level = level; last_leak = last_leak })
  ]

  -- `set` with the expiration, and without it if that raises.
  unfoldable pub save : store.State → ℕ → Text → Bucket → ℕ → Result store.State
  save s now key b seconds =
      let value = json.dumps (b.level, b.last_leak) in
      elim (store.set s now key value (some seconds)) [
        | some s' ↦ returns s'
        | none ↦ elim (store.set s now key value none) [
          | some s' ↦ returns s'
          | none ↦ raises backend_error
        ]
      ]

  unfoldable pub generic_leaky_bucket_check :
      ℕ → ℕ → ℕ → store.State → ℕ → Text → ℕ → ℕ → ℕ → Result (Decision × store.State)
  generic_leaky_bucket_check second unit initial_level s now key capacity leak_rate request_cost =
      do
        b ←
            load (store.get s now (bucket_key key))
              (record { level = initial_level; last_leak = now })
        let outcome = pour unit capacity leak_rate now request_cost b
        s' ← save s now (bucket_key key) outcome.2 (expiration second capacity leak_rate)
        returns (checked outcome.0 outcome.1, s')

  -- The info has no clamp: a clock that stepped back raises the level.
  unfoldable pub generic_leaky_bucket_info : store.State → ℕ → Text → ℕ → ℕ → Result Info
  generic_leaky_bucket_info s now key capacity leak_rate = do
    b ← load (store.get s now (bucket_key key)) (record { level = 0; last_leak = now })
    let level = b.level + (b.last_leak - now) * leak_rate - (now - b.last_leak) * leak_rate
    returns (record {
      current_level = level;
      space = sub_ℕ capacity level;
      time_to_empty = if ltb 0 leak_rate then (level, leak_rate) else (0, 1);
      last = b.last_leak;
    })

-- The configuration of `LeakyBucketAlgorithm`, capacities and costs in whole requests.
pub record LeakyBucketAlgorithm : Type 0 where
  pub bucket_capacity : Option ℕ
  pub leak_rate : Option ℕ
  pub initial_level : ℕ
  pub cost_per_request : ℕ

module _ (second : ℕ) (json : Json) (store : Backend) (alg : LeakyBucketAlgorithm) where
  -- The backend's own `leaky_bucket_check`, where it has one.
  abbrev pub NativeCheck : Type 0
  NativeCheck = store.State → ℕ → Text → ℕ → ℕ → ℕ → Result (Decision × store.State)

  unfoldable pub is_allowed :
      Option NativeCheck
      → store.State
      → ℕ
      → Text
      → ℕ
      → ℕ
      → Option ℕ
      → Result (Decision × store.State)
  is_allowed native s now key limit period kwargs_cost =
      let capacity = get_or alg.bucket_capacity limit in
      let request_cost = get_or kwargs_cost alg.cost_per_request in
      let u = units period in
      let generic = generic_leaky_bucket_check json store second u (alg.initial_level * u) in
      let check = get_or native generic in
      do
        leak_rate ← rate_or_default alg.leak_rate limit period
        if leb capacity 0
            then returns (invalid_bucket_capacity, s)
            else if leb request_cost 0
            then returns (no_request_cost, s)
            else check s now key (capacity * u) leak_rate (request_cost * u)

  unfoldable pub get_info :
      Option (store.State → ℕ → Text → ℕ → ℕ → Result Info)
      → store.State
      → ℕ
      → Text
      → ℕ
      → ℕ
      → Result Info
  get_info native s now key limit period = do
    leak_rate ← rate_or_default alg.leak_rate limit period
    get_or native (generic_leaky_bucket_info json store) s now key
        (get_or alg.bucket_capacity limit * units period) leak_rate
