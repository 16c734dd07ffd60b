-- ===== src/Backends/Memory/Eviction.antt =====
-- The cleanup of `MemoryBackend` (django_smart_ratelimit/backends/memory.py): its bound on the
-- number of keys, and where it raises.
use django_smart_ratelimit.Prelude.{
  ℕ, zero, suc, ◌+◌, ◌≤◌, ◌≡◌, ◌≢◌, refl, inl, inr, Option, none, some, [], ◌∷◌, arith, Text,
  text_key, length, Option-cases, if◌then◌else◌,
}
use django_smart_ratelimit.Prelude.Dict
use django_smart_ratelimit.Prelude.Dict.{Dict}
use django_smart_ratelimit.Backends.Utils.{millis, Item, clean_expired_entries}
use django_smart_ratelimit.Backends.Memory.{
  Counter, TokenBucketState, MemoryConfig, MemoryBackend, remove_from_partition, update_partition,
  total_keys, evict_counter, evict_bucket, evict_item, evict_one, evict, cleanup_due, sweep,
  cleanup_if_needed,
}
use django_smart_ratelimit.Backends.Base.{ok, backend_error}
use django_smart_ratelimit.Backends.Memory.Counters.{normalized, store_request, incr}

total-remove_from_partition :
    (s : MemoryBackend) (key : Text) → total_keys (remove_from_partition s key) ≡ total_keys s
unfolding remove_from_partition total_keys
total-remove_from_partition s key = ground arith

-- One of `total` entries went, or there was none among the `chosen`.
abbrev Evicted : ℕ → ℕ → Option MemoryBackend → Type 0
Evicted chosen total none = chosen ≡ 0
Evicted chosen total (some s) = total ≡ suc (total_keys s)

module _ (s : MemoryBackend) where
  counter-Evicted :
      (d : Dict Text Counter)
      → Evicted
          (length d)
          (length d + length s.token_buckets + length s.storage)
          (evict_counter s d)
  unfolding evict_counter
  counter-Evicted [] = refl
  counter-Evicted ((key, x) ∷ rest) =
      rw (total-remove_from_partition (record s { counters = rest }) key)
        (unfold total_keys in omega arith)

  bucket-Evicted :
      (d : Dict Text TokenBucketState)
      → Evicted (length d) (length s.counters + length d + length s.storage) (evict_bucket s d)
  unfolding evict_bucket total_keys
  bucket-Evicted [] = refl
  bucket-Evicted (x ∷ rest) = omega arith

  item-Evicted :
      (d : Dict Text Item)
      → Evicted (length d) (length s.counters + length s.token_buckets + length d) (evict_item s d)
  unfolding evict_item total_keys
  item-Evicted [] = refl
  item-Evicted (x ∷ rest) = omega arith

  one-Evicted : Evicted (total_keys s) (total_keys s) (evict_one s)
  unfolding evict_one
  one-Evicted =
      let total : total_keys s ≡ length s.counters + length s.token_buckets + length s.storage =
        unfold total_keys in refl in
      ground (
        arith,
        total,
        counter-Evicted s.counters,
        bucket-Evicted s.token_buckets,
        item-Evicted s.storage,
      )

-- As many rounds as there are entries above the maximum are enough.
evict_lem :
    (rounds max_keys : ℕ) (s : MemoryBackend)
    → total_keys s ≤ rounds + max_keys
    → total_keys (evict rounds max_keys s) ≤ max_keys
unfolding evict
evict_lem zero max_keys s h = omega arith
evict_lem (suc rounds) max_keys s h = elim (Option-cases (evict_one s)) [
  | inl e ↦ ground (arith, one-Evicted s)
  | inr (s', e) ↦ ground (arith, one-Evicted s, evict_lem rounds max_keys s')
]

-- A cleanup that does not raise leaves at most `max_keys` entries.
pub cleanup-bound :
    (c : MemoryConfig) (s s' : MemoryBackend) (now : ℕ)
    → cleanup_if_needed c s now ≡ some s'
    → total_keys s' ≤ c.max_keys
unfolding cleanup_if_needed cleanup_due
cleanup-bound c s s' now h = elim (Option-cases (clean_expired_entries s.storage now)) [
  | inl e ↦ ground arith
  | inr (storage, e) ↦
      let swept = sweep c s storage now in
      let bound = evict_lem (total_keys swept) c.max_keys swept (omega arith) in
      let kept = evict (total_keys swept) c.max_keys swept in
      let same : total_keys (record kept { last_cleanup = now }) ≡ total_keys kept =
        unfold total_keys in refl in
      ground arith
]

-- The write of a counter leaves the generic storage and the time of the last cleanup alone.
module _ (c : MemoryConfig) (s : MemoryBackend) (now : ℕ) (key : Text) (period : ℕ)
    (uid : Text) where
  storage-store_request : (store_request c s now key period uid).0.storage ≡ s.storage
  unfolding store_request update_partition
  storage-store_request = ground arith

  last_cleanup-store_request :
      (store_request c s now key period uid).0.last_cleanup ≡ s.last_cleanup
  unfolding store_request update_partition
  last_cleanup-store_request = ground arith

-- While no item of the generic storage is without an expiration, every `incr` leaves at most
-- `max_keys` entries in the backend.
pub memory_bounded :
    (c : MemoryConfig) (s : MemoryBackend) (now : ℕ) (key : Text) (period : ℕ) (uid : Text)
    → clean_expired_entries s.storage now ≢ none
    → total_keys (incr c s now key period uid).1 ≤ c.max_keys
unfolding incr
memory_bounded c s now key period uid clean =
    let stored = (store_request c s now (normalized c key) period uid).0 in
    elim (Option-cases (cleanup_if_needed c stored now)) [
      | inl e ↦ absurd (
          unfold cleanup_if_needed in
          ground (arith, clean, storage-store_request c s now (normalized c key) period uid))
      | inr (s', e) ↦ ground (arith, cleanup-bound c stored s' now e)
    ]

clean-none :
    (d : Dict Text Item) (now : ℕ) (key : Text) (item : Item)
    → Dict.get d key ≡ some item
    → item.expires_at ≡ none
    → clean_expired_entries d now ≡ none
unfolding clean_expired_entries Dict.get
clean-none [] now key item h e = ground arith
clean-none ((j, i) ∷ d) now key item h e = ground (arith, clean-none d now key item)

-- One item that was stored without an expiration makes every later `incr` fail, on whatever key,
-- from the end of the cleanup interval on: the cleanup compares the clock with None and raises.
pub unexpiring_item_breaks_incr :
    (c : MemoryConfig) (s : MemoryBackend) (now : ℕ) (key stored : Text) (item : Item) (period : ℕ)
    (uid : Text)
    → Dict.get s.storage stored ≡ some item
    → item.expires_at ≡ none
    → s.last_cleanup + millis c.cleanup_interval ≤ now
    → ((incr c s now key period uid).0 ≡ (if c.fail_open then ok 0 else backend_error))
      × ((incr c s now key period uid).1.last_cleanup ≡ s.last_cleanup)
      × ((incr c s now key period uid).1.storage ≡ s.storage)
unfolding incr cleanup_if_needed cleanup_due
unexpiring_item_breaks_incr c s now key stored item period uid h e late =
    let k = normalized c key in
    let t = (store_request c s now k period uid).0 in
    let raised : clean_expired_entries t.storage now ≡ none =
      clean-none t.storage now stored item (rw (storage-store_request c s now k period uid) h) e in
    (
      ground (arith, raised, last_cleanup-store_request c s now k period uid),
      ground (arith, raised, last_cleanup-store_request c s now k period uid),
      ground (
        arith,
        raised,
        last_cleanup-store_request c s now k period uid,
        storage-store_request c s now k period uid,
      ),
    )
