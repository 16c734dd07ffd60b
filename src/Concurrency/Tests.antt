-- ===== src/Concurrency/Tests.antt =====
-- The concurrency limit of django_smart_ratelimit/concurrency.py at a concrete input.
use django_smart_ratelimit.Prelude.{ℕ, ◌≡◌, refl, true, none, some, [], ◌∷◌, codes, text_key}
use django_smart_ratelimit.Prelude.Dict
use django_smart_ratelimit.Backends.Memory.{MemoryBackend, new_backend}
use django_smart_ratelimit.Backends.Memory.Semaphore.{holders, live_holders, concurrency_acquire}
use django_smart_ratelimit.Decorator.Handlers.{Attempt, raises, other_error}
use django_smart_ratelimit.Concurrency.{
  ConcurrencyLimit, ended, resolve_concurrency_key, wrapper, slot_given_back,
}

abbrev one_export : ConcurrencyLimit
one_export = record { max_concurrent = 1; ttl = 60; block = true; member = codes "a" }

-- A view that raises.
abbrev failing : MemoryBackend → Attempt ℕ × MemoryBackend
failing s = (raises other_error, s)

abbrev held : MemoryBackend
held = record (new_backend 0) { concurrency = (codes "concurrency:u", (codes "a", 5) ∷ []) ∷ [] }

slot_given_back_example :
    ((wrapper failing one_export (new_backend 0) 5 (some (codes "u"))).0
      ≡ ended (raises other_error))
    × (Dict.get
          (holders
            (wrapper failing one_export (new_backend 0) 5 (some (codes "u"))).1
            (resolve_concurrency_key (codes "u")))
          (codes "a")
        ≡ none)
slot_given_back_example = slot_given_back failing one_export (new_backend 0) held 5 (codes "u") (
    unfold concurrency_acquire resolve_concurrency_key new_backend holders live_holders Dict.get
      Dict.put in
    refl)
