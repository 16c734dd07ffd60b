-- ===== src/Backends/Memory/Counters.antt =====
-- django_smart_ratelimit/backends/memory.py: `incr`, `reset`, `get_count`, `get_reset_time`, the
-- generic storage and `clear_all`. A method reads the clock once, as `now`.
use django_smart_ratelimit.Prelude.{
  ℕ, ◌+◌, ◌-◌, ◌/◌, Bool, true, false, ◌||◌, Option, none, some, List, [], ◌∷◌, ◌++◌, Text,
  text_key, nat_beq, length, if◌then◌else◌,
}
use django_smart_ratelimit.Prelude.Dict
use django_smart_ratelimit.Prelude.Dict.{Dict}
use django_smart_ratelimit.Backends.Base.{Outcome, ok, backend_error}
use django_smart_ratelimit.Backends.Utils.{
  normalize_key, calculate_expiry, generate_expiry_timestamp, is_expired, Request,
  filter_sliding_window_requests, calculate_sliding_window_count, Item,
}
use django_smart_ratelimit.Backends.Memory.{
  Counter, MemoryConfig, MemoryBackend, update_partition, remove_from_partition, cleanup_if_needed,
}

-- `normalize_key(key, self._key_prefix)`, with its default length.
unfoldable pub normalized : MemoryConfig → Text → Text
unfolding normalize_key
normalized c key = normalize_key c.hexdigest key c.key_prefix 250

-- The entry of a key as `incr` finds it: a new one is empty.
unfoldable pub entry : MemoryBackend → Text → ℕ → ℕ → Counter
entry s key period now = elim (Dict.get s.counters key) [
  | none ↦ record { expiry_time = calculate_expiry period now; requests = [] }
  | some e ↦ e
]

-- The entry with one more request, and the count that is returned.
unfoldable pub count_request : Bool → ℕ → ℕ → Text → Counter → Counter
count_request sliding period now unique_id e =
    if sliding
    then record {
      expiry_time = calculate_expiry period now;
      requests = filter_sliding_window_requests e.requests period now ++ (now, unique_id) ∷ [];
    }
    else if is_expired e.expiry_time now
    then record {
      expiry_time = generate_expiry_timestamp period now;
      requests = (now, unique_id) ∷ [];
    }
    else record e { requests = e.requests ++ (now, unique_id) ∷ [] }

-- The state after the write of `incr`, before the cleanup.
unfoldable pub store_request :
    MemoryConfig → MemoryBackend → ℕ → Text → ℕ → Text → MemoryBackend × ℕ
store_request c s now key period unique_id =
    let e = count_request c.sliding_window period now unique_id (entry s key period now) in
    let touched = Dict.put (Dict.move_to_end s.counters key) key e in
    (update_partition c (record s { counters = touched }) key e.expiry_time, length e.requests)

-- An exception, the cleanup's, is caught: fail-open answers 0, otherwise a BackendError is raised.
-- What was written before it stays written.
unfoldable pub incr : MemoryConfig → MemoryBackend → ℕ → Text → ℕ → Text → Outcome ℕ × MemoryBackend
incr c s now key period unique_id =
    let (stored, result) = store_request c s now (normalized c key) period unique_id in
    elim (cleanup_if_needed c stored now) [
      | some s' ↦ (ok result, s')
      | none ↦ (if c.fail_open then ok 0 else backend_error, stored)
    ]

unfoldable pub get_count : MemoryConfig → MemoryBackend → ℕ → Text → ℕ → ℕ
get_count c s now key period = elim (Dict.get s.counters (normalized c key)) [
  | none ↦ 0
  | some e ↦
      if c.sliding_window
      then calculate_sliding_window_count e.requests period now
      else if is_expired e.expiry_time now
      then 0
      else length e.requests
]

unfoldable pub reset : MemoryConfig → MemoryBackend → Text → MemoryBackend
reset c s key =
    let k = normalized c key in
    let s' : MemoryBackend =
      if Dict.contains s.counters k
      then remove_from_partition (record s { counters = Dict.remove s.counters k }) k
      else s in
    record s' { token_buckets = Dict.remove s'.token_buckets k }

-- The time of the first request of a list, and of the last.
abbrev pub first_time : List Request → Option ℕ
first_time [] = none
first_time ((t, _) ∷ rs) = some t

abbrev pub last_time : List Request → Option ℕ
last_time [] = none
last_time ((t, _) ∷ []) = some t
last_time (_ ∷ r ∷ rs) = last_time (r ∷ rs)

-- In seconds, as `int(…)` gives them; an expiry before the last request would be negative.
unfoldable pub get_reset_time : MemoryConfig → MemoryBackend → Text → Option ℕ
get_reset_time c s key = elim (Dict.get s.counters (normalized c key)) [
  | none ↦ none
  | some e ↦
      if c.sliding_window
      then (elim (first_time e.requests) [
        | none ↦ none
        | some oldest ↦ elim (last_time e.requests) [
          | none ↦ none
          | some last ↦ some ((oldest + e.expiry_time - last) / 1000)
        ]
      ])
      else some (e.expiry_time / 1000)
]

-- `get` gives the stored dict, with the value and its expiration, and does not look at the clock.
unfoldable pub get : MemoryBackend → Text → Option Item
get s key = Dict.get s.storage key

-- An exception of the cleanup is caught: nothing is stored and the answer is False.
unfoldable pub set :
    MemoryConfig → MemoryBackend → ℕ → Text → Text → Option ℕ → MemoryBackend × Bool
set c s now key value expiration = elim (cleanup_if_needed c s now) [
  | none ↦ (s, false)
  | some s' ↦
      (let expires : Option ℕ = elim expiration [
        | none ↦ none
        | some seconds ↦ if nat_beq seconds 0 then none else some (calculate_expiry seconds now)
      ] in
        (
          record s' {
            storage = Dict.put s'.storage key (record { value = value; expires_at = expires });
          },
          true,
        ))
]

unfoldable pub delete : MemoryBackend → Text → MemoryBackend × Bool
delete s key =
    let in_storage = Dict.contains s.storage key in
    let in_counters = Dict.contains s.counters key in
    let in_buckets = Dict.contains s.token_buckets key in
    let s' : MemoryBackend = record s { storage = Dict.remove s.storage key } in
    let s'' : MemoryBackend =
      if in_counters
      then remove_from_partition (record s' { counters = Dict.remove s'.counters key }) key
      else s' in
    (
      record s'' { token_buckets = Dict.remove s''.token_buckets key },
      in_storage || (in_counters || in_buckets),
    )

unfoldable pub clear_all : MemoryBackend → MemoryBackend
clear_all s = record s {
  counters = [];
  token_buckets = [];
  storage = [];
  partitions = [];
  key_partition = [];
}
