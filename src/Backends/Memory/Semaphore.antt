-- ===== src/Backends/Memory/Semaphore.antt =====
-- django_smart_ratelimit/backends/memory.py: `concurrency_acquire` and `concurrency_release`.
use django_smart_ratelimit.Prelude.{
  ℕ, ◌+◌, ◌≤◌, ◌≡◌, inl, inr, Bool, true, false, none, some, List, [], ◌∷◌, arith, Text, text_key,
  text_beq_iff, ltb, length, filter, length-filter-le, Option-cases, Bool-cases, sym, if◌then◌else◌,
}
use django_smart_ratelimit.Prelude.Dict
use django_smart_ratelimit.Prelude.Dict.{Dict}
use django_smart_ratelimit.Backends.Utils.{millis}
use django_smart_ratelimit.Backends.Memory.{MemoryBackend, new_backend}

-- `self._concurrency.get(key)`, with no holders for a key that is not there.
unfoldable pub holders : MemoryBackend → Text → Dict Text ℕ
holders s key = elim (Dict.get s.concurrency key) [ none ↦ [] | some h ↦ h ]

-- The holders that are not stale: `not (ts <= now - ttl)`.
unfoldable pub live_holders : ℕ → ℕ → Dict Text ℕ → Dict Text ℕ
live_holders now ttl = filter (λ (h : Text × ℕ). ltb now (h.1 + millis ttl))

unfoldable pub concurrency_acquire : MemoryBackend → ℕ → Text → ℕ → ℕ → Text → MemoryBackend × Bool
concurrency_acquire s now key max_concurrent ttl holder =
    let live = live_holders now ttl (holders s key) in
    if ltb (length live) max_concurrent
    then (record s { concurrency = Dict.put s.concurrency key (Dict.put live holder now) }, true)
    else (record s { concurrency = Dict.put s.concurrency key live }, false)

-- The holders of a key after a release: the key goes with its last holder.
unfoldable pub keep_holders : MemoryBackend → Text → Dict Text ℕ → MemoryBackend
keep_holders s key [] = record s { concurrency = Dict.remove s.concurrency key }
keep_holders s key (x ∷ xs) = record s { concurrency = Dict.put s.concurrency key (x ∷ xs) }

unfoldable pub concurrency_release : MemoryBackend → Text → Text → MemoryBackend
concurrency_release s key holder = elim (Dict.get s.concurrency key) [
  | none ↦ s
  | some h ↦ keep_holders s key (Dict.remove h holder)
]

pub holders-put :
    (s : MemoryBackend) (key other : Text) (h : Dict Text ℕ)
    → holders (record s { concurrency = Dict.put s.concurrency key h }) other
      ≡ (if text_key.same key other then h else holders s other)
unfolding holders
holders-put s key other h = ground (arith, Dict.get-put s.concurrency key other h)

length-live_holders-le :
    (now ttl : ℕ) (d : Dict Text ℕ) → length (live_holders now ttl d) ≤ length d
unfolding live_holders
length-live_holders-le now ttl d = length-filter-le (λ (h : Text × ℕ). ltb now (h.1 + millis ttl)) d

-- After an attempt to acquire a slot, the key has at most `max_concurrent` holders if it had at
-- most that many before or the attempt was granted.
pub acquire-bound :
    (s : MemoryBackend) (now : ℕ) (key : Text) (max_concurrent ttl : ℕ) (holder : Text)
    → length (holders s key) ≤ max_concurrent
    → length (holders (concurrency_acquire s now key max_concurrent ttl holder).0 key)
      ≤ max_concurrent
unfolding concurrency_acquire
acquire-bound s now key max_concurrent ttl holder h =
    let live = live_holders now ttl (holders s key) in
    ground (
      arith,
      holders-put s key key (Dict.put live holder now),
      holders-put s key key live,
      text_beq_iff key key,
      Dict.length-put-le live holder now,
      length-live_holders-le now ttl (holders s key),
    )

-- A slot is granted exactly when fewer than `max_concurrent` holders are live; the new holder is
-- then recorded with the time.
pub acquire_exact :
    (s : MemoryBackend) (now : ℕ) (key : Text) (max_concurrent ttl : ℕ) (holder : Text)
    → let (s', granted) = concurrency_acquire s now key max_concurrent ttl holder in
      let live = live_holders now ttl (holders s key) in
      (granted ≡ ltb (length live) max_concurrent)
      × (holders s' key ≡ (if granted then Dict.put live holder now else live))
unfolding concurrency_acquire
acquire_exact s now key max_concurrent ttl holder =
    let live = live_holders now ttl (holders s key) in
    ground (
      arith,
      holders-put s key key (Dict.put live holder now),
      holders-put s key key live,
      text_beq_iff key key,
    )

holders-remove :
    (s : MemoryBackend) (key other : Text)
    → holders (record s { concurrency = Dict.remove s.concurrency key }) other
      ≡ (if text_key.same key other then [] else holders s other)
unfolding holders
holders-remove s key other = ground (arith, Dict.get-remove s.concurrency key other)

holders-keep :
    (s : MemoryBackend) (key other : Text) (h : Dict Text ℕ)
    → holders (keep_holders s key h) other
      ≡ (if text_key.same key other then h else holders s other)
unfolding keep_holders
holders-keep s key other [] = holders-remove s key other
holders-keep s key other (x ∷ xs) = holders-put s key other (x ∷ xs)

-- A release takes the holder out of the holders of its key, and leaves the other keys alone.
pub holders-release :
    (s : MemoryBackend) (key other holder : Text)
    → holders (concurrency_release s key holder) other
      ≡ (if text_key.same key other then Dict.remove (holders s key) holder else holders s other)
holders-release s key other holder = elim (Option-cases (Dict.get s.concurrency key)) [
  | inl absent ↦
      unfold concurrency_release holders Dict.remove in ground (arith, text_beq_iff key other)
  | inr (h, found) ↦
      let e : holders s key ≡ h = unfold holders in ground arith in
      unfold concurrency_release in
      ground (arith, e, holders-keep s key other (Dict.remove h holder))
]

-- What callers do with the semaphores, in any order: take a slot, with its time, key, ttl and
-- holder, or give one back.
pub data Event : Type 0 where
  acquire : ℕ → Text → ℕ → Text → Event
  release : Text → Text → Event

unfoldable pub play : ℕ → MemoryBackend → List Event → MemoryBackend
play max_concurrent s [] = s
play max_concurrent s (acquire now key ttl holder ∷ es) =
    play max_concurrent (concurrency_acquire s now key max_concurrent ttl holder).0 es
play max_concurrent s (release key holder ∷ es) =
    play max_concurrent (concurrency_release s key holder) es

holders-acquire_other :
    (s : MemoryBackend) (now : ℕ) (key other : Text) (max_concurrent ttl : ℕ) (holder : Text)
    → text_key.same key other ≡ false
    → holders (concurrency_acquire s now key max_concurrent ttl holder).0 other ≡ holders s other
unfolding concurrency_acquire
holders-acquire_other s now key other max_concurrent ttl holder h =
    let live = live_holders now ttl (holders s key) in
    ground (arith, holders-put s key other (Dict.put live holder now), holders-put s key other live)

play-bound :
    (max_concurrent : ℕ) (s : MemoryBackend) (es : List Event)
    → ((key : Text) → length (holders s key) ≤ max_concurrent)
    → (key : Text) → length (holders (play max_concurrent s es) key) ≤ max_concurrent
unfolding play
play-bound m s [] h key = h key
play-bound m s (acquire now k ttl holder ∷ es) h key =
    play-bound m (concurrency_acquire s now k m ttl holder).0 es
      (λ j. elim (Bool-cases (text_key.same k j)) [
        | inl same ↦ rw (sym ((text_beq_iff k j).0 same)) (acquire-bound s now k m ttl holder (h k))
        | inr other ↦ rw (holders-acquire_other s now k j m ttl holder other) (h j)
      ])
      key
play-bound m s (release k holder ∷ es) h key =
    play-bound m (concurrency_release s k holder) es
      (λ j.
        ground (
          arith,
          holders-release s k j holder,
          Dict.length-remove-le (holders s k) holder,
          h k,
          h j,
        ))
      key

-- From a new backend, whatever requests take and give back slots of whatever keys at whatever
-- times, no key ever has more than `max_concurrent` holders.
pub never_over_capacity :
    (max_concurrent now : ℕ) (es : List Event) (key : Text)
    → length (holders (play max_concurrent (new_backend now) es) key) ≤ max_concurrent
never_over_capacity max_concurrent now es =
    play-bound max_concurrent (new_backend now) es
      λ key. unfold new_backend holders Dict.get in omega arith

-- Giving a slot back makes room: when the holders were within the capacity and one of them is
-- released, the next attempt is granted.
pub release_makes_room :
    (s : MemoryBackend) (key holder next : Text) (since now max_concurrent ttl : ℕ)
    → length (holders s key) ≤ max_concurrent
    → Dict.get (holders s key) holder ≡ some since
    → (concurrency_acquire (concurrency_release s key holder) now key max_concurrent ttl next).1
      ≡ true
release_makes_room s key holder next since now max_concurrent ttl fits held =
    let s' = concurrency_release s key holder in
    ground (
      arith,
      (acquire_exact s' now key max_concurrent ttl next).0,
      holders-release s key key holder,
      text_beq_iff key key,
      Dict.length-remove-lt (holders s key) holder since held,
      length-live_holders-le now ttl (holders s' key),
    )
