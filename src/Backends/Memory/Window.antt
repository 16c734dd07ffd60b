-- ===== src/Backends/Memory/Window.antt =====
-- What holds of `MemoryBackend` while `incr` counts requests in a sliding window
-- (django_smart_ratelimit/backends/memory.py).
pub mod Sweep
pub mod Store
pub mod Exact
pub mod Limit
use django_smart_ratelimit.Prelude.{
  ℕ, zero, suc, ◌+◌, ◌≤◌, ◌<◌, ◌/◌, ◌*◌, ◌≡◌, refl, sym, inl, inr, Bool, true, false, ◌&&◌, ◌||◌,
  not, Option, none, some, List, [], ◌∷◌, ◌++◌, arith, Text, text_key, nat_key, text_beq_iff,
  nat_beq_iff, length, length-append, ap, filter, filter-append, filter-filter, count_if, ltb, leb,
  Option-cases, Bool-cases, if◌then◌else◌,
}
use django_smart_ratelimit.Prelude.Dict
use django_smart_ratelimit.Prelude.Dict.{Dict}
use django_smart_ratelimit.Backends.Utils.{
  Item, millis, Request, in_window, calculate_expiry, filter_sliding_window_requests,
  clean_expired_entries,
}
use django_smart_ratelimit.Backends.Memory.{
  Counter, TokenBucketState, MemoryConfig, MemoryBackend, new_backend, member, get_partition_id,
  leave_partition, join_partition, update_partition, drop_keys, drop_partitions, expired_partitions,
  sweep, live_buckets, total_keys, evict, cleanup_due, cleanup_if_needed,
}
use django_smart_ratelimit.Backends.Base.{ok}
use django_smart_ratelimit.Backends.Memory.Counters.{
  normalized, entry, count_request, store_request, incr,
}
use django_smart_ratelimit.Backends.Memory.Index.{
  keys_of, member-nil, member-join, member-leave, counters-drop_keys, key_partition-drop_keys,
  length-drop_keys-le, rest-drop_keys, rest-update, key_partition-update, indexed-update,
}

abbrev pub requests_of : MemoryBackend → Text → List Request
requests_of s k = elim (Dict.get s.counters k) [ none ↦ [] | some e ↦ e.requests ]

-- The backend at time `now` counts what was sent, with one period: the index is right, a counter
-- holds nothing that is still in its window once it has expired, and the requests that it holds
-- for a key are, as far as a later window can see, those that were sent.
pub record IsCounted (c : MemoryConfig) (period : ℕ) (sent : Text → List Request) (now : ℕ)
    (s : MemoryBackend) : Type 0 where
  pub indexed :
      (p : ℕ) (k : Text)
      → member k (keys_of s.partitions p) ≡ true
      → Dict.get s.key_partition k ≡ some p
  pub partition_of :
      (p : ℕ) (k : Text) (e : Counter)
      → Dict.get s.key_partition k ≡ some p
      → Dict.get s.counters k ≡ some e
      → get_partition_id c e.expiry_time ≡ p
  pub window_end :
      (k : Text) (e : Counter) (t : ℕ)
      → Dict.get s.counters k ≡ some e
      → e.expiry_time ≤ t
      → filter (in_window period t) e.requests ≡ []
  pub expiry_le :
      (k : Text) (e : Counter)
      → Dict.get s.counters k ≡ some e
      → e.expiry_time ≤ now + millis period
  pub counted :
      (k : Text) (t : ℕ)
      → now ≤ t
      → filter (in_window period t) (requests_of s k) ≡ filter (in_window period t) (sent k)
  pub no_buckets : s.token_buckets ≡ []
  pub no_items : s.storage ≡ []
