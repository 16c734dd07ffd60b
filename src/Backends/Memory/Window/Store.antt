-- ===== src/Backends/Memory/Window/Store.antt =====
-- The write of `incr` (django_smart_ratelimit/backends/memory.py), with the sliding window.
use django_smart_ratelimit.Prelude.{
  ℕ, suc, ◌+◌, ◌≤◌, ◌≡◌, refl, inl, inr, true, some, List, [], ◌∷◌, ◌++◌, arith, Text, text_key,
  nat_key, text_beq_iff, length, length-append, filter, filter-append, filter-filter, Option-cases,
  if◌then◌else◌,
}
use django_smart_ratelimit.Prelude.Dict
use django_smart_ratelimit.Prelude.Dict.{Dict}
use django_smart_ratelimit.Backends.Utils.{
  millis, Request, in_window, calculate_expiry, filter_sliding_window_requests,
}
use django_smart_ratelimit.Backends.Memory.{
  Counter, MemoryConfig, MemoryBackend, member, get_partition_id,
}
use django_smart_ratelimit.Backends.Memory.Counters.{entry, count_request, store_request}
use django_smart_ratelimit.Backends.Memory.Index.{
  keys_of, rest-update, key_partition-update, indexed-update,
}
use django_smart_ratelimit.Backends.Memory.Window.{requests_of, IsCounted}

-- The requests of a key as `incr` leaves them, and what a later window sees of them.
module _ (c : MemoryConfig) (period : ℕ) (s : MemoryBackend) (key : Text) (now : ℕ)
    (uid : Text) where
  abbrev counted_entry : Counter
  counted_entry = count_request true period now uid (entry s key period now)

  filter-entry :
      (t : ℕ)
      → filter (in_window period t) (entry s key period now).requests
        ≡ filter (in_window period t) (requests_of s key)
  unfolding entry
  filter-entry t = ground arith

  filter-counted_entry :
      (t : ℕ)
      → now ≤ t
      → filter (in_window period t) counted_entry.requests
        ≡ filter (in_window period t) (requests_of s key)
          ++ filter (in_window period t) ((now, uid) ∷ [])
  unfolding count_request filter_sliding_window_requests
  filter-counted_entry t later =
      let old = (entry s key period now).requests in
      ground (
        arith,
        filter-append (in_window period t) (filter (in_window period now) old) ((now, uid) ∷ []),
        filter-filter (in_window period now) (in_window period t) (λ r h. ground arith) old,
        filter-entry t,
      )

  counters-store_request :
      c.sliding_window ≡ true
      → (k : Text)
      → Dict.get (store_request c s now key period uid).0.counters k
        ≡ (if text_key.same key k then some counted_entry else Dict.get s.counters k)
  unfolding store_request
  counters-store_request sliding k =
      let touched = Dict.move_to_end s.counters key in
      rw (sliding) ground (
        arith,
        (rest-update c (record s { counters = Dict.put touched key counted_entry }) key
            counted_entry.expiry_time).0,
        Dict.get-put touched key k counted_entry,
        Dict.get-move_to_end s.counters key k,
      )

  rest-store_request :
      ((store_request c s now key period uid).0.token_buckets ≡ s.token_buckets)
      × ((store_request c s now key period uid).0.storage ≡ s.storage)
  unfolding store_request
  rest-store_request =
      let e = count_request c.sliding_window period now uid (entry s key period now) in
      let s' : MemoryBackend = record s {
        counters = Dict.put (Dict.move_to_end s.counters key) key e;
      } in
      let kept = rest-update c s' key e.expiry_time in (kept.1, kept.2)

  pub length-store_request-le :
      length (store_request c s now key period uid).0.counters ≤ suc (length s.counters)
  unfolding store_request
  length-store_request-le =
      let e = count_request c.sliding_window period now uid (entry s key period now) in
      let touched = Dict.move_to_end s.counters key in
      let s' : MemoryBackend = record s { counters = Dict.put touched key e } in
      rw ((rest-update c s' key e.expiry_time).0) omega
        (arith, Dict.length-put-le touched key e, Dict.length-move_to_end-le s.counters key)

  key_partition-store_request :
      c.sliding_window ≡ true
      → (k : Text)
      → Dict.get (store_request c s now key period uid).0.key_partition k ≡ (
          if text_key.same key k
          then some (get_partition_id c counted_entry.expiry_time)
          else Dict.get s.key_partition k)
  unfolding store_request
  key_partition-store_request sliding k =
      let touched = Dict.move_to_end s.counters key in
      ground (
        arith,
        key_partition-update c (record s { counters = Dict.put touched key counted_entry }) key
            counted_entry.expiry_time k,
      )

  indexed-store_request :
      ((p : ℕ) (k : Text)
        → member k (keys_of s.partitions p) ≡ true
        → Dict.get s.key_partition k ≡ some p)
      → (p : ℕ) (k : Text)
      → member k (keys_of (store_request c s now key period uid).0.partitions p) ≡ true
      → Dict.get (store_request c s now key period uid).0.key_partition k ≡ some p
  unfolding store_request
  indexed-store_request =
      let e = count_request c.sliding_window period now uid (entry s key period now) in
      let s' : MemoryBackend = record s {
        counters = Dict.put (Dict.move_to_end s.counters key) key e;
      } in
      indexed-update c s' key e.expiry_time

  expiry-counted_entry : counted_entry.expiry_time ≡ now + millis period
  unfolding count_request calculate_expiry
  expiry-counted_entry = refl

  -- Counting a request keeps the invariant, with the request sent.
  pub store-IsCounted :
      (sent : Text → List Request) (before : ℕ)
      → before ≤ now
      → c.sliding_window ≡ true
      → IsCounted c period sent before s
      → IsCounted c period
          (λ k. if text_key.same key k then sent k ++ (now, uid) ∷ [] else sent k)
          now
          (store_request c s now key period uid).0
  store-IsCounted sent before le sliding h = record {
    indexed = indexed-store_request h.indexed;
    partition_of = λ p k e at is. ground (
      arith,
      key_partition-store_request sliding k,
      counters-store_request sliding k,
      h.partition_of p k e,
    );
    window_end = λ k e t is late. elim (Option-cases (Dict.get s.counters k)) [
      | inl absent ↦ ground (
        arith,
        counters-store_request sliding k,
        text_beq_iff key k,
        expiry-counted_entry,
        filter-counted_entry t,
      )
      | inr (old, present) ↦ ground (
        arith,
        counters-store_request sliding k,
        text_beq_iff key k,
        expiry-counted_entry,
        filter-counted_entry t,
        h.expiry_le k old present,
        h.window_end k old t present,
        h.window_end k e t,
      )
    ];
    expiry_le = λ k e is.
        ground (arith, expiry-counted_entry, counters-store_request sliding k, h.expiry_le k e);
    counted = λ k t later. ground (
      arith,
      counters-store_request sliding k,
      text_beq_iff key k,
      filter-counted_entry t later,
      h.counted k t,
      filter-append (in_window period t) (sent k) ((now, uid) ∷ []),
    );
    no_buckets = rw (rest-store_request.0) h.no_buckets;
    no_items = rw (rest-store_request.1) h.no_items;
  }

  pub result-store_request :
      c.sliding_window ≡ true
      → (store_request c s now key period uid).1
        ≡ suc (length (filter (in_window period now) (requests_of s key)))
  unfolding store_request count_request filter_sliding_window_requests
  result-store_request sliding =
      let old = filter (in_window period now) (entry s key period now).requests in
      ground (arith, filter-entry now, length-append old ((now, uid) ∷ []))
