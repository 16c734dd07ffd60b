-- ===== src/Backends/Memory.antt =====
-- django_smart_ratelimit/backends/memory.py: the state of `MemoryBackend` and its private helpers
-- (partitions, cleanup, eviction). Every method holds the lock, so it is one step. Times are in
-- milliseconds, intervals and periods in seconds.
pub mod Counters
pub mod Semaphore
pub mod Buckets
pub mod Eviction
pub mod Index
pub mod Reset
pub mod Window
use django_smart_ratelimit.Prelude.{
  ℕ, zero, suc, ◌+◌, ◌-◌, ◌*◌, ◌/◌, ◌≡◌, Bool, true, false, ◌&&◌, ◌||◌, not, Option, none, some,
  List, [], ◌∷◌, ◌++◌, Text, text_key, nat_key, ◌==◌, ltb, leb, nat_beq, length, filter,
  if◌then◌else◌,
}
use django_smart_ratelimit.Prelude.Int.{ℤ}
use django_smart_ratelimit.Prelude.Dict
use django_smart_ratelimit.Prelude.Dict.{Dict}
use django_smart_ratelimit.Backends.Utils.{millis, Request, Item, clean_expired_entries}

-- A rate limit counter: `(expiry_time, [(timestamp, unique_id), ...])`.
pub record Counter : Type 0 where
  pub expiry_time : ℕ
  pub requests : List Request

pub record TokenBucketState : Type 0 where
  pub tokens : ℤ
  pub last_refill : ℕ
  pub expires_at : ℕ

pub record MemoryConfig : Type 0 where
  pub max_keys : ℕ
  pub cleanup_interval : ℕ
  pub sliding_window : Bool
  pub key_prefix : Text
  pub fail_open : Bool
  -- `hashlib.sha256(…).hexdigest()`, which the source only calls
  pub hexdigest : Text → Text

-- `counters` is `_data`. A set of keys is a list without repetitions.
pub record MemoryBackend : Type 0 where
  pub counters : Dict Text Counter
  pub partitions : Dict ℕ (List Text)
  pub key_partition : Dict Text ℕ
  pub token_buckets : Dict Text TokenBucketState
  pub storage : Dict Text Item
  pub concurrency : Dict Text (Dict Text ℕ)
  pub last_cleanup : ℕ

unfoldable pub new_backend : ℕ → MemoryBackend
new_backend now = record {
  counters = [];
  partitions = [];
  key_partition = [];
  token_buckets = [];
  storage = [];
  concurrency = [];
  last_cleanup = now;
}

-- `key in keys`
unfoldable pub member : Text → List Text → Bool
member k [] = false
member k (j ∷ ks) = j == k || member k ks

-- `keys.add(key)`
unfoldable pub set_add : Text → List Text → List Text
unfolding member
set_add k ks = if member k ks then ks else ks ++ k ∷ []

-- `keys.discard(key)`
unfoldable pub discard : Text → List Text → List Text
discard k = filter (λ j. not (j == k))

unfoldable pub get_partition_id : MemoryConfig → ℕ → ℕ
get_partition_id c expiry_time = expiry_time / millis c.cleanup_interval

-- Discard a key from a partition, and the partition with its last key.
unfoldable pub leave_partition : Dict ℕ (List Text) → ℕ → Text → Dict ℕ (List Text)
leave_partition partitions p key = elim (Dict.get partitions p) [
  | none ↦ partitions
  | some keys ↦ elim (discard key keys) [
    | [] ↦ Dict.remove partitions p
    | k ∷ ks ↦ Dict.put partitions p (k ∷ ks)
  ]
]

-- `self._partitions[p].add(key)`, on a defaultdict
unfoldable pub join_partition : Dict ℕ (List Text) → ℕ → Text → Dict ℕ (List Text)
join_partition partitions p key =
    Dict.put partitions p (set_add key (elim (Dict.get partitions p) [ none ↦ [] | some ks ↦ ks ]))

unfoldable pub update_partition : MemoryConfig → MemoryBackend → Text → ℕ → MemoryBackend
update_partition c s key expiry_time =
    let new_partition = get_partition_id c expiry_time in
    let moved : Dict ℕ (List Text) → MemoryBackend = λ partitions. record s {
      partitions = join_partition partitions new_partition key;
      key_partition = Dict.put s.key_partition key new_partition;
    } in
    elim (Dict.get s.key_partition key) [
      | none ↦ moved s.partitions
      | some old_partition ↦
          if old_partition == new_partition
          then s
          else moved (leave_partition s.partitions old_partition key)
    ]

unfoldable pub remove_from_partition : MemoryBackend → Text → MemoryBackend
remove_from_partition s key = elim (Dict.get s.key_partition key) [
  | none ↦ s
  | some partition_id ↦ record s {
    partitions = leave_partition s.partitions partition_id key;
    key_partition = Dict.remove s.key_partition key;
  }
]

-- Remove the keys of one partition from the counters and from the key map.
unfoldable pub drop_keys : MemoryBackend → List Text → MemoryBackend
drop_keys s [] = s
drop_keys s (key ∷ keys) =
    drop_keys
      (record s {
        counters = Dict.remove s.counters key;
        key_partition = Dict.remove s.key_partition key;
      })
      keys

unfoldable pub drop_partitions : MemoryBackend → List ℕ → MemoryBackend
unfolding drop_keys
drop_partitions s [] = s
drop_partitions s (p ∷ ps) =
    drop_partitions
      (elim (Dict.get s.partitions p) [
        | none ↦ s
        | some keys ↦ record (drop_keys s keys) { partitions = Dict.remove s.partitions p }
      ])
      ps

-- The partitions that lie before the current one.
unfoldable pub expired_partitions : ℕ → Dict ℕ (List Text) → List ℕ
expired_partitions current [] = []
expired_partitions current ((p, _) ∷ partitions) =
    if ltb p current
    then p ∷ expired_partitions current partitions
    else expired_partitions current partitions

-- The token buckets whose expiry has not been reached.
unfoldable pub live_buckets : ℕ → Dict Text TokenBucketState → Dict Text TokenBucketState
live_buckets now = filter (λ (b : Text × TokenBucketState). not (leb b.1.expires_at now))

unfoldable pub total_keys : MemoryBackend → ℕ
total_keys s = length s.counters + length s.token_buckets + length s.storage

-- One round of the LRU eviction: the first entry of the chosen collection goes. `none` is `break`.
unfoldable pub evict_counter : MemoryBackend → Dict Text Counter → Option MemoryBackend
evict_counter s [] = none
evict_counter s ((key, _) ∷ rest) = some (remove_from_partition (record s { counters = rest }) key)

unfoldable pub evict_bucket : MemoryBackend → Dict Text TokenBucketState → Option MemoryBackend
evict_bucket s [] = none
evict_bucket s (_ ∷ rest) = some (record s { token_buckets = rest })

unfoldable pub evict_item : MemoryBackend → Dict Text Item → Option MemoryBackend
evict_item s [] = none
evict_item s (_ ∷ rest) = some (record s { storage = rest })

unfoldable pub evict_one : MemoryBackend → Option MemoryBackend
evict_one s =
    let d_len = length s.counters in
    let t_len = length s.token_buckets in
    let s_len = length s.storage in
    if ltb 0 d_len && (leb t_len d_len || nat_beq t_len 0)
    then evict_counter s s.counters
    else if ltb 0 t_len
    then evict_bucket s s.token_buckets
    else if ltb 0 s_len
    then evict_item s s.storage
    else none

-- `while total_keys > self._max_keys`. Each round evicts one entry, so that as many rounds as
-- there are entries are enough (Memory/Eviction).
unfoldable pub evict : ℕ → ℕ → MemoryBackend → MemoryBackend
evict zero max_keys s = s
evict (suc rounds) max_keys s =
    if leb (total_keys s) max_keys
    then s
    else elim (evict_one s) [ none ↦ s | some s' ↦ evict rounds max_keys s' ]

unfoldable pub cleanup_due : MemoryConfig → MemoryBackend → ℕ → Bool
cleanup_due c s now =
    not (ltb now (s.last_cleanup + millis c.cleanup_interval) && leb (total_keys s) c.max_keys)

-- The sweep of what has expired, once the storage has been cleaned.
unfoldable pub sweep : MemoryConfig → MemoryBackend → Dict Text Item → ℕ → MemoryBackend
sweep c s storage now =
    let current_partition = get_partition_id c now in
    let s' : MemoryBackend = record s { storage = storage } in
    let swept = drop_partitions s' (expired_partitions current_partition s.partitions) in
    record swept { token_buckets = live_buckets now swept.token_buckets }

-- `_cleanup_if_needed`; `none` is the TypeError of `clean_expired_entries`, before any change.
unfoldable pub cleanup_if_needed : MemoryConfig → MemoryBackend → ℕ → Option MemoryBackend
cleanup_if_needed c s now =
    if cleanup_due c s now
    then (elim (clean_expired_entries s.storage now) [
      | none ↦ none
      | some storage ↦
          (let swept = sweep c s storage now in
            let kept = evict (total_keys swept) c.max_keys swept in
            some (record kept { last_cleanup = now }))
    ])
    else some s
