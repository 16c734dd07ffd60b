-- ===== src/Backends/Memory/Window/Sweep.antt =====
-- `_cleanup_if_needed` (django_smart_ratelimit/backends/memory.py) keeps the counts of a
-- sliding window.
use native.Mathlib.Nat.{div-zero, div-mul-le_self, le-div_iff_mul-le}
use django_smart_ratelimit.Prelude.{
  ℕ, zero, suc, ◌≤◌, ◌<◌, ◌/◌, ◌*◌, ◌≡◌, refl, inl, inr, Bool, true, ◌&&◌, some, List, [], ◌∷◌,
  arith, Text, text_key, nat_key, nat_beq_iff, length, ltb, Option-cases, Bool-cases,
}
use django_smart_ratelimit.Prelude.Dict
use django_smart_ratelimit.Prelude.Dict.{Dict}
use django_smart_ratelimit.Backends.Utils.{Item, millis, Request, clean_expired_entries}
use django_smart_ratelimit.Backends.Memory.{
  TokenBucketState, MemoryConfig, MemoryBackend, get_partition_id, drop_keys, drop_partitions,
  expired_partitions, sweep, live_buckets, total_keys, evict, cleanup_due, cleanup_if_needed,
}
use django_smart_ratelimit.Backends.Memory.Index.{
  member-nil, counters-drop_keys, key_partition-drop_keys, length-drop_keys-le, rest-drop_keys,
}
use django_smart_ratelimit.Backends.Memory.Window.{IsCounted}

quotient-lt : (a b m : ℕ) → a / m < b / m → a < b
quotient-lt a b zero h = omega (arith, div-zero a, div-zero b)
quotient-lt a b (suc m) h = elim (Bool-cases (ltb a b)) [
  | inl lt ↦ ground arith
  | inr ge ↦
      let b_le : b / suc m * suc m ≤ b = div-mul-le_self b (suc m) in
      let le : b / suc m ≤ a / suc m =
        (le-div_iff_mul-le {k = suc m} (omega arith)).1 (ground arith) in
      omega arith
]

-- What lies in a partition before the current one has expired.
expired-partition :
    (c : MemoryConfig) (expiry now : ℕ)
    → get_partition_id c expiry < get_partition_id c now
    → expiry < now
unfolding get_partition_id
expired-partition c expiry now = quotient-lt expiry now (millis c.cleanup_interval)

all_before : ℕ → List ℕ → Bool
all_before current [] = true
all_before current (p ∷ ps) = ltb p current && all_before current ps

expired_partitions-before :
    (current : ℕ) (d : Dict ℕ (List Text))
    → all_before current (expired_partitions current d) ≡ true
unfolding expired_partitions all_before
expired_partitions-before current [] = refl
expired_partitions-before current ((p, ks) ∷ d) =
    ground (arith, expired_partitions-before current d)

-- Where there are few enough keys, nothing is evicted.
evict_idle :
    (rounds max_keys : ℕ) (s : MemoryBackend)
    → total_keys s ≤ max_keys
    → evict rounds max_keys s ≡ s
unfolding evict
evict_idle zero max_keys s h = refl
evict_idle (suc rounds) max_keys s h = ground arith

module _ (c : MemoryConfig) (period : ℕ) (sent : Text → List Request) (now : ℕ) where
  -- Dropping the keys of a partition that lies before the current one loses no request that a
  -- window from now on can see.
  drop-IsCounted :
      (s : MemoryBackend) (p : ℕ) (keys : List Text)
      → Dict.get s.partitions p ≡ some keys
      → p < get_partition_id c now
      → IsCounted c period sent now s
      → IsCounted c period sent now
          (record (drop_keys s keys) { partitions = Dict.remove s.partitions p })
  drop-IsCounted s p keys found before h = record {
    indexed = λ q k inside. ground (
      arith,
      key_partition-drop_keys keys s k,
      Dict.get-remove s.partitions p q,
      nat_beq_iff p q,
      h.indexed q k,
      h.indexed p k,
      member-nil k,
    );
    partition_of = λ q k e at is. ground (
      arith,
      key_partition-drop_keys keys s k,
      counters-drop_keys keys s k,
      h.partition_of q k e,
    );
    window_end = λ k e t is late. ground (arith, counters-drop_keys keys s k, h.window_end k e t);
    expiry_le = λ k e is. ground (arith, counters-drop_keys keys s k, h.expiry_le k e);
    counted = λ k t later. elim (Option-cases (Dict.get s.counters k)) [
      | inl e ↦ ground (arith, counters-drop_keys keys s k, h.counted k t later)
      | inr (x, e) ↦ ground (
        arith,
        counters-drop_keys keys s k,
        h.counted k t later,
        h.indexed p k,
        h.partition_of p k x,
        h.window_end k x t e,
        expired-partition c x.expiry_time now,
      )
    ];
    no_buckets = rw ((rest-drop_keys keys s).0) h.no_buckets;
    no_items = rw ((rest-drop_keys keys s).1) h.no_items;
  }

  drops-IsCounted :
      (s : MemoryBackend) (ps : List ℕ)
      → all_before (get_partition_id c now) ps ≡ true
      → IsCounted c period sent now s
      → IsCounted c period sent now (drop_partitions s ps)
  unfolding drop_partitions all_before
  drops-IsCounted s [] before h = h
  drops-IsCounted s (p ∷ ps) before h = elim (Option-cases (Dict.get s.partitions p)) [
    | inl e ↦ rw e (drops-IsCounted s ps (ground arith) h)
    | inr (keys, e) ↦ rw e (
        drops-IsCounted (record (drop_keys s keys) { partitions = Dict.remove s.partitions p }) ps
          (ground arith) (drop-IsCounted s p keys e (ground arith) h))
  ]

  length-drop_partitions-le :
      (s : MemoryBackend) (ps : List ℕ) → length (drop_partitions s ps).counters ≤ length s.counters
  unfolding drop_partitions
  length-drop_partitions-le s [] = omega arith
  length-drop_partitions-le s (p ∷ ps) = elim (Option-cases (Dict.get s.partitions p)) [
    | inl e ↦ ground (arith, length-drop_partitions-le s ps)
    | inr (keys, e) ↦
        let s' : MemoryBackend = record (drop_keys s keys) {
          partitions = Dict.remove s.partitions p;
        } in
        ground (arith, length-drop_partitions-le s' ps, length-drop_keys-le keys s)
  ]

  restate-IsCounted :
      (s : MemoryBackend) (buckets : Dict Text TokenBucketState) (storage : Dict Text Item) (t : ℕ)
      → buckets ≡ []
      → storage ≡ []
      → IsCounted c period sent now s
      → IsCounted c period sent now
          (record s { token_buckets = buckets; storage = storage; last_cleanup = t })
  restate-IsCounted s buckets storage t b i h = record {
    indexed = h.indexed;
    partition_of = h.partition_of;
    window_end = h.window_end;
    expiry_le = h.expiry_le;
    counted = h.counted;
    no_buckets = b;
    no_items = i;
  }

  -- A sweep loses no request that a window from now on can see, and adds no key.
  sweep-IsCounted :
      (s : MemoryBackend)
      → IsCounted c period sent now s
      → IsCounted c period sent now (sweep c s [] now)
        × (length (sweep c s [] now).counters ≤ length s.counters)
  sweep-IsCounted s h =
      let ps = expired_partitions (get_partition_id c now) s.partitions in
      let s' : MemoryBackend = record s { storage = [] } in
      let swept = drop_partitions s' ps in
      let h' =
        drops-IsCounted s' ps (expired_partitions-before (get_partition_id c now) s.partitions)
          (restate-IsCounted s s.token_buckets [] s.last_cleanup h.no_buckets refl h) in
      unfold sweep in
      (
        restate-IsCounted swept (live_buckets now swept.token_buckets) swept.storage
            swept.last_cleanup (rw (h'.no_buckets) (unfold live_buckets in refl)) h'.no_items h',
        length-drop_partitions-le s' ps,
      )

  -- With nothing in the generic storage and few enough keys, a cleanup does not raise and evicts
  -- nothing.
  pub cleanup-IsCounted :
      (s : MemoryBackend)
      → length s.counters ≤ c.max_keys
      → IsCounted c period sent now s
      → (s' : MemoryBackend) × (cleanup_if_needed c s now ≡ some s')
        × IsCounted c period sent now s'
        × (length s'.counters ≤ length s.counters)
  cleanup-IsCounted s fits h = elim (Bool-cases (cleanup_due c s now)) [
    | inr idle ↦ (s, unfold cleanup_if_needed in ground arith, h, omega arith)
    | inl due ↦
        let swept = sweep c s [] now in
        let (h', le) = sweep-IsCounted s h in
        let few : total_keys swept ≤ c.max_keys =
          unfold total_keys in rw (h'.no_buckets, h'.no_items) (omega (arith, le)) in
        let kept : evict (total_keys swept) c.max_keys swept ≡ swept =
          evict_idle (total_keys swept) c.max_keys swept few in
        (
          record swept { last_cleanup = now },
          unfold cleanup_if_needed in
              rw (due, h.no_items) (unfold clean_expired_entries sweep in rw kept refl),
          restate-IsCounted swept swept.token_buckets swept.storage now h'.no_buckets h'.no_items
              h',
          le,
        )
  ]
