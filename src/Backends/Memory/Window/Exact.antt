-- ===== src/Backends/Memory/Window/Exact.antt =====
-- The counts that `incr` returns (django_smart_ratelimit/backends/memory.py), with the
-- sliding window, through partitions and cleanups.
use django_smart_ratelimit.Prelude.{
  ℕ, suc, ◌+◌, ◌≤◌, ◌≡◌, refl, Bool, true, ◌&&◌, some, List, [], ◌∷◌, ◌++◌, arith, Text, text_key,
  nat_key, length, length-append, ap, filter, filter-append, count_if, ltb, leb, if◌then◌else◌,
}
use django_smart_ratelimit.Prelude.Dict
use django_smart_ratelimit.Prelude.Dict.{Dict}
use django_smart_ratelimit.Backends.Utils.{millis, Request, in_window}
use django_smart_ratelimit.Backends.Memory.{
  MemoryConfig, MemoryBackend, new_backend, member, cleanup_if_needed,
}
use django_smart_ratelimit.Backends.Base.{ok}
use django_smart_ratelimit.Backends.Memory.Counters.{normalized, store_request, incr}
use django_smart_ratelimit.Backends.Memory.Window.{IsCounted}
use django_smart_ratelimit.Backends.Memory.Window.Sweep.{cleanup-IsCounted}
use django_smart_ratelimit.Backends.Memory.Window.Store.{
  store-IsCounted, result-store_request, length-store_request-le,
}

-- Where the cleanup does not raise, `incr` returns the count and leaves what the cleanup left.
incr-cleaned :
    (c : MemoryConfig) (period now : ℕ) (s s' : MemoryBackend) (key uid : Text)
    → let (stored, result) = store_request c s now (normalized c key) period uid in
      cleanup_if_needed c stored now ≡ some s' → incr c s now key period uid ≡ (ok result, s')
unfolding incr
incr-cleaned c period now s s' key uid cleaned = ground arith

-- What `incr` does while there are few enough keys: it counts, and the invariant stays.
incr-IsCounted :
    (c : MemoryConfig) (period : ℕ) (sent : Text → List Request) (before now : ℕ)
    (s : MemoryBackend) (key uid : Text)
    → let k = normalized c key in
      before ≤ now
      → c.sliding_window ≡ true
      → suc (length s.counters) ≤ c.max_keys
      → IsCounted c period sent before s
      → IsCounted c period
          (λ j. if text_key.same k j then sent j ++ (now, uid) ∷ [] else sent j)
          now
          (incr c s now key period uid).1
        × (length (incr c s now key period uid).1.counters ≤ suc (length s.counters))
        × ((incr c s now key period uid).0
            ≡ ok (suc (length (filter (in_window period now) (sent k)))))
incr-IsCounted c period sent before now s key uid le sliding fits h =
    let k = normalized c key in
    let stored = (store_request c s now k period uid).0 in
    let (s', cleaned, h', few) =
      cleanup-IsCounted c period
        (λ j. if text_key.same k j then sent j ++ (now, uid) ∷ [] else sent j) now stored
        (omega (arith, length-store_request-le c period s k now uid))
        (store-IsCounted c period s k now uid sent before le sliding h) in
    rw (incr-cleaned c period now s s' key uid cleaned) (
      h',
      omega (arith, few, length-store_request-le c period s k now uid),
      ap ok (rw (result-store_request c period s k now uid sliding, h.counted k now le) refl),
    )

-- A call of `incr`: its time, its key and its unique id.
abbrev pub Call : Type 0
Call = ℕ × Text × Text

-- The backend after calls with one period, the last call first.
unfoldable pub after : MemoryConfig → ℕ → ℕ → List Call → MemoryBackend
unfolding incr
after c period start [] = new_backend start
after c period start ((now, key, uid) ∷ earlier) =
    (incr c (after c period start earlier) now key period uid).1

-- The clock did not step back between the calls, the last of which was at `now` or before.
unfoldable pub ordered : ℕ → List Call → Bool
ordered now [] = true
ordered now ((t, _, _) ∷ earlier) = leb t now && ordered t earlier

-- The requests that were sent for a normalized key.
abbrev sent_by : MemoryConfig → List Call → Text → List Request
sent_by c [] k = []
sent_by c ((now, key, uid) ∷ earlier) k =
    if text_key.same (normalized c key) k
    then sent_by c earlier k ++ (now, uid) ∷ []
    else sent_by c earlier k

-- A call counts for `key` at `now` if it has its normalized key and is less than a period old.
unfoldable pub counts_for : MemoryConfig → ℕ → ℕ → Text → Call → Bool
unfolding normalized
counts_for c period now key (t, k, _) =
    text_key.same (normalized c k) (normalized c key) && ltb now (t + millis period)

length-sent_by :
    (c : MemoryConfig) (period now : ℕ) (key : Text) (calls : List Call)
    → length (filter (in_window period now) (sent_by c calls (normalized c key)))
      ≡ count_if (counts_for c period now key) calls
unfolding counts_for
length-sent_by c period now key [] = refl
length-sent_by c period now key ((t, k, uid) ∷ earlier) =
    let sent = sent_by c earlier (normalized c key) in
    ground (
      arith,
      length-sent_by c period now key earlier,
      filter-append (in_window period now) sent ((t, uid) ∷ []),
      length-append (filter (in_window period now) sent)
          (filter (in_window period now) ((t, uid) ∷ [])),
    )

advance-IsCounted :
    (c : MemoryConfig) (period : ℕ) (sent : Text → List Request) (before now : ℕ)
    (s : MemoryBackend)
    → before ≤ now
    → IsCounted c period sent before s
    → IsCounted c period sent now s
advance-IsCounted c period sent before now s le h = record {
  indexed = h.indexed;
  partition_of = h.partition_of;
  window_end = h.window_end;
  no_buckets = h.no_buckets;
  no_items = h.no_items;
  expiry_le = λ k e is. omega (arith, h.expiry_le k e is);
  counted = λ k t later. h.counted k t (omega arith);
}

new_backend-IsCounted :
    (c : MemoryConfig) (period start now : ℕ) → IsCounted c period (λ k. []) now (new_backend start)
unfolding new_backend Dict.get member
new_backend-IsCounted c period start now = record {
  indexed = λ p k inside. ground arith;
  partition_of = λ p k e at is. ground arith;
  window_end = λ k e t is late. ground arith;
  expiry_le = λ k e is. ground arith;
  counted = λ k t later. refl;
  no_buckets = refl;
  no_items = refl;
}

after-IsCounted :
    (c : MemoryConfig) (period start now : ℕ) (calls : List Call)
    → c.sliding_window ≡ true
    → ordered now calls ≡ true
    → length calls ≤ c.max_keys
    → IsCounted c period (sent_by c calls) now (after c period start calls)
      × (length (after c period start calls).counters ≤ length calls)
unfolding after ordered
after-IsCounted c period start now [] sliding order fits =
    (new_backend-IsCounted c period start now, unfold new_backend in omega arith)
after-IsCounted c period start now ((t, key, uid) ∷ earlier) sliding order fits =
    let (h, few) = after-IsCounted c period start t earlier sliding (ground arith) (omega arith) in
    let (h', le, _) =
      incr-IsCounted c period (sent_by c earlier) t t (after c period start earlier) key uid
        (omega arith) sliding (omega (arith, few)) h in
    (
      advance-IsCounted c period (sent_by c ((t, key, uid) ∷ earlier)) t now
          (after c period start ((t, key, uid) ∷ earlier)) (ground arith) h',
      omega (arith, le, few),
    )

-- The sliding window is exact: after calls of `incr` on a new backend, all with one period, while
-- the clock does not step back and there are fewer calls than `max_keys`, `incr` returns one more
-- than the number of the calls for the same normalized key that are less than a period old,
-- whatever was swept in between.
pub sliding_window_exact :
    (c : MemoryConfig) (period start : ℕ) (calls : List Call) (now : ℕ) (key uid : Text)
    → c.sliding_window ≡ true
    → ordered now calls ≡ true
    → suc (length calls) ≤ c.max_keys
    → (incr c (after c period start calls) now key period uid).0
      ≡ ok (suc (count_if (counts_for c period now key) calls))
sliding_window_exact c period start calls now key uid sliding order fits =
    let (h, few) = after-IsCounted c period start now calls sliding order (omega arith) in
    let (_, _, result) =
      incr-IsCounted c period (sent_by c calls) now now (after c period start calls) key uid
        (omega arith) sliding (omega (arith, few)) h in
    rw⁻¹ (length-sent_by c period now key calls) result
