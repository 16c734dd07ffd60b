-- ===== src/Backends/Memory/Window/Limit.antt =====
-- `check_rate_limit` (django_smart_ratelimit/backends/base.py) on `MemoryBackend` with the sliding
-- window: how many requests it admits in a period.
use django_smart_ratelimit.Prelude.{
  ℕ, suc, ◌≤◌, ◌≡◌, refl, Bool, true, false, ◌&&◌, List, [], ◌∷◌, arith, Text, text_key,
  text_beq_iff, length, count_if, if◌then◌else◌,
}
use django_smart_ratelimit.Backends.Base
use django_smart_ratelimit.Backends.Base.{Outcome, CheckMetadata, ok, backend_error}
use django_smart_ratelimit.Backends.Memory.{MemoryConfig, MemoryBackend}
use django_smart_ratelimit.Backends.Memory.Counters.{normalized, incr}
use django_smart_ratelimit.Backends.Memory.Window.Exact.{
  Call, after, ordered, counts_for, sliding_window_exact,
}

-- `check_rate_limit` of the backend, at a time.
unfoldable pub check_rate_limit :
    MemoryConfig
    → MemoryBackend
    → ℕ
    → Text
    → ℕ
    → ℕ
    → Text
    → Outcome (Bool × CheckMetadata) × MemoryBackend
unfolding Base.check_rate_limit
check_rate_limit c s now key limit period uid =
    Base.check_rate_limit (λ s' k p. incr c s' now k p uid) c.fail_open s key limit period

abbrev pub allowed : Outcome (Bool × CheckMetadata) → Bool
allowed (ok (answer, _)) = answer
allowed backend_error = false

-- How many of the calls, checked one after the other, were admitted for `key` less than a period
-- before `now`.
unfoldable pub admitted : MemoryConfig → ℕ → ℕ → ℕ → ℕ → Text → List Call → ℕ
unfolding check_rate_limit
admitted c period start limit now key [] = 0
admitted c period start limit now key ((t, k, uid) ∷ earlier) =
    let rest = admitted c period start limit now key earlier in
    if counts_for c period now key (t, k, uid)
      && allowed (check_rate_limit c (after c period start earlier) t k limit period uid).0
    then suc rest
    else rest

admitted-le :
    (c : MemoryConfig) (period start limit now : ℕ) (key : Text) (calls : List Call)
    → admitted c period start limit now key calls ≤ count_if (counts_for c period now key) calls
unfolding admitted
admitted-le c period start limit now key [] = omega arith
admitted-le c period start limit now key (call ∷ earlier) =
    ground (arith, admitted-le c period start limit now key earlier)

-- Seen earlier, and from a key with the same normal form, no fewer calls are less than a period
-- old.
count_if-counts_for-le :
    (c : MemoryConfig) (period now t : ℕ) (key k : Text) (calls : List Call)
    → t ≤ now
    → normalized c k ≡ normalized c key
    → count_if (counts_for c period now key) calls ≤ count_if (counts_for c period t k) calls
unfolding counts_for
count_if-counts_for-le c period now t key k [] le same = omega arith
count_if-counts_for-le c period now t key k ((t', k', uid) ∷ earlier) le same =
    ground (arith, count_if-counts_for-le c period now t key k earlier le same)

counts_for-key :
    (c : MemoryConfig) (period now : ℕ) (key : Text) (t : ℕ) (k uid : Text)
    → counts_for c period now key (t, k, uid) ≡ true
    → normalized c k ≡ normalized c key
unfolding counts_for
counts_for-key c period now key t k uid h =
    ground (arith, text_beq_iff (normalized c k) (normalized c key))

ordered-later :
    (t now : ℕ) (calls : List Call) → t ≤ now → ordered t calls ≡ true → ordered now calls ≡ true
unfolding ordered
ordered-later t now [] le h = refl
ordered-later t now (call ∷ earlier) le h = ground arith

-- With the sliding window: of the requests for one normalized key that a new backend has checked
-- and that are less than a period old, at most `limit` were admitted, if all checks, of whatever
-- keys, have that period and limit, there are no more of them than `max_keys`, and the clock does
-- not step back.
pub window_admits_at_most :
    (c : MemoryConfig) (period start limit now : ℕ) (key : Text) (calls : List Call)
    → c.sliding_window ≡ true
    → ordered now calls ≡ true
    → length calls ≤ c.max_keys
    → admitted c period start limit now key calls ≤ limit
unfolding admitted ordered
window_admits_at_most c period start limit now key [] sliding order fits = omega arith
window_admits_at_most c period start limit now key ((t, k, uid) ∷ earlier) sliding order fits =
    let earlier_ordered : ordered t earlier ≡ true = ground arith in
    let t_le : t ≤ now = ground arith in
    let bound =
      window_admits_at_most c period start limit now key earlier sliding
        (ordered-later t now earlier t_le earlier_ordered) (omega arith) in
    let exact = sliding_window_exact c period start earlier t k uid sliding earlier_ordered fits in
    ground (
      arith,
      bound,
      exact,
      admitted-le c period start limit now key earlier,
      count_if-counts_for-le c period now t key k earlier t_le,
      counts_for-key c period now key t k uid,
    )
