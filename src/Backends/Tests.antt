-- ===== src/Backends/Tests.antt =====
-- The theorems on the backends (django_smart_ratelimit/backends) at concrete inputs.
use django_smart_ratelimit.Prelude.{
  ◌+◌, ◌≤◌, ◌≡◌, ◌≢◌, refl, true, false, none, some, List, [], ◌∷◌, arith, Text, text_key, codes,
  length, suc, count_if,
}
use django_smart_ratelimit.Prelude.Int.{pos}
use django_smart_ratelimit.Prelude.Dict
use django_smart_ratelimit.Prelude.Dict.{Dict}
use django_smart_ratelimit.Algorithms.TokenBucket
use django_smart_ratelimit.Backends.Base
use django_smart_ratelimit.Backends.Utils.{
  normalize_key, with_prefix, replace_spaces, filter_sliding_window_requests, millis,
  clean_expired_entries, calculate_token_bucket_state,
}
use django_smart_ratelimit.Backends.Memory.{
  update_partition, MemoryConfig, MemoryBackend, new_backend, total_keys, cleanup_if_needed,
  cleanup_due,
}
use django_smart_ratelimit.Backends.Base.{ok, backend_error}
use django_smart_ratelimit.Backends.Memory.Counters.{
  incr, set, store_request, count_request, entry, normalized,
}
use django_smart_ratelimit.Backends.Memory.Semaphore.{
  Event, acquire, release, play, holders, live_holders, concurrency_acquire, never_over_capacity,
}
use django_smart_ratelimit.Backends.Memory.Eviction.{memory_bounded, unexpiring_item_breaks_incr}
use django_smart_ratelimit.Backends.Utils.Keys.{spaces, normalize_key_fits}
use django_smart_ratelimit.Backends.Memory.Window.Exact.{
  Call, after, ordered, counts_for, sliding_window_exact,
}
use django_smart_ratelimit.Backends.Memory.Window.Limit.{
  check_rate_limit, allowed, admitted, window_admits_at_most,
}
use django_smart_ratelimit.Backends.Memory.Buckets.{
  token_bucket_check, token_bucket_expiry, state_agrees,
}

abbrev config : MemoryConfig
config = record {
  max_keys = 100;
  cleanup_interval = 60;
  sliding_window = true;
  key_prefix = [];
  fail_open = false;
  hexdigest = λ t. t;
}

abbrev key : Text
key = codes "ip"

abbrev slots : List Event
slots =
    acquire 1000 key 5 (codes "a")
    ∷ acquire 1100 key 5 (codes "b")
    ∷ release key (codes "a")
    ∷ acquire 1200 key 5 (codes "c")
    ∷ []

never_over_capacity_example : length (holders (play 1 (new_backend 0) slots) key) ≤ 1
never_over_capacity_example = never_over_capacity 1 0 slots key

abbrev one_held : MemoryBackend
one_held = (concurrency_acquire (new_backend 0) 1000 key 1 5 (codes "a")).0

one_fits : length (holders one_held key) ≤ 1
unfolding concurrency_acquire holders live_holders new_backend Dict.get Dict.put
one_fits = omega arith

a_held : Dict.get (holders one_held key) (codes "a") ≡ some 1000
unfolding concurrency_acquire holders live_holders new_backend Dict.get Dict.put
a_held = refl

new_is_clean : clean_expired_entries (new_backend 0).storage 5000 ≢ none
unfolding new_backend clean_expired_entries
new_is_clean e = cc

memory_bounded_example : total_keys (incr config (new_backend 0) 5000 key 60 (codes "u")).1 ≤ 100
memory_bounded_example = memory_bounded config (new_backend 0) 5000 key 60 (codes "u") new_is_clean

-- One value, stored with no expiration.
abbrev with_item : MemoryBackend
with_item = (set config (new_backend 0) 1000 (codes "k") (codes "v") none).0

item_stored :
    Dict.get with_item.storage (codes "k") ≡ some (record { value = codes "v"; expires_at = none })
unfolding set cleanup_if_needed cleanup_due new_backend total_keys Dict.get Dict.put
item_stored = refl

item_late : with_item.last_cleanup + millis 60 ≤ 60000
unfolding set cleanup_if_needed cleanup_due new_backend total_keys
item_late = omega arith

unexpiring_item_breaks_incr_example :
    ((incr config with_item 60000 key 60 (codes "u")).0 ≡ backend_error)
    × ((incr config with_item 60000 key 60 (codes "u")).1.last_cleanup ≡ with_item.last_cleanup)
    × ((incr config with_item 60000 key 60 (codes "u")).1.storage ≡ with_item.storage)
unexpiring_item_breaks_incr_example =
    unexpiring_item_breaks_incr config with_item 60000 key (codes "k")
      (record { value = codes "v"; expires_at = none }) 60 (codes "u") item_stored refl item_late

state_agrees_example :
    let state = calculate_token_bucket_state (pos 2) 100 103 10 1 4 in
    let (answer, metadata, b) =
      TokenBucket.take_tokens 10 1 103 4 (record { tokens = 2; last_refill = 100 }) in
    (state.is_allowed ≡ answer) × (state.tokens_remaining ≡ pos b.tokens)
state_agrees_example = state_agrees 2 100 103 10 1 4 (omega arith) (omega arith)

bucket_expires : token_bucket_expiry config 1000 10 1 ≤ 70000
unfolding token_bucket_expiry
bucket_expires = omega arith

-- Calls with a period of 60 seconds: two of the first key and, between them, one of another. The
-- cleanup at the last of them sweeps.
abbrev calls : List Call
calls = (65000, key, codes "v") ∷ (40000, codes "other", codes "w") ∷ (1000, key, codes "u") ∷ []

calls_ordered : ordered 70000 calls ≡ true
unfolding ordered
calls_ordered = refl

-- At 70 seconds the first call is out of the window.
sliding_window_exact_example :
    (incr config (after config 60 0 calls) 70000 key 60 (codes "x")).0
    ≡ ok (suc (count_if (counts_for config 60 70000 key) calls))
sliding_window_exact_example =
    sliding_window_exact config 60 0 calls 70000 key (codes "x") refl calls_ordered (omega arith)

two_counted : suc (count_if (counts_for config 60 70000 key) calls) ≡ 2
unfolding counts_for normalized normalize_key with_prefix replace_spaces
two_counted = refl

window_admits_at_most_example : admitted config 60 0 1 70000 key calls ≤ 1
window_admits_at_most_example =
    window_admits_at_most config 60 0 1 70000 key calls refl calls_ordered (omega arith)

first_allowed : allowed (check_rate_limit config (new_backend 0) 1000 key 1 60 (codes "u")).0 ≡ true
unfolding check_rate_limit Base.check_rate_limit incr store_request count_request entry
    cleanup_if_needed cleanup_due new_backend total_keys Dict.get Dict.put Dict.move_to_end
    update_partition filter_sliding_window_requests
first_allowed = refl

-- A bucket of ten tokens from which seven were taken.
abbrev with_bucket : MemoryBackend
with_bucket = (token_bucket_check config (new_backend 0) 1000 key 10 1 10 7).1

abbrev digest : Text → Text
digest t = codes "e3b0c44298fc1c149afbf4c8996fb92427ae41e4649b934ca495991b7852b855"

normalize_key_fits_example :
    (length (normalize_key digest (codes "some user") (codes "ratelimit:") 70) ≤ 70)
    × (spaces (normalize_key digest (codes "some user") (codes "ratelimit:") 70) ≡ 0)
normalize_key_fits_example =
    normalize_key_fits digest (codes "some user") (codes "ratelimit:") 70 (λ t. refl) (omega arith)
