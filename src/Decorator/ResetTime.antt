-- ===== src/Decorator/ResetTime.antt =====
-- django_smart_ratelimit/decorator.py: the times of reset that responses announce,
-- `_get_first_aligned_reset_time`, `_calculate_stable_reset_time_sliding_window` and
-- `_get_reset_time`. The clock is read in milliseconds; a time of reset is in seconds.
pub mod Stable
use django_smart_ratelimit.Prelude.{
  ℕ, zero, suc, ◌+◌, ◌*◌, ◌/◌, Bool, true, false, Option, none, some, List, [], ◌∷◌, Text, text_key,
  ltb, leb, length, take, if◌then◌else◌,
}
use django_smart_ratelimit.Prelude.Strings.{is_empty}
use django_smart_ratelimit.Prelude.Dict
use django_smart_ratelimit.Prelude.Dict.{Dict}

-- `_reset_time_cache`
abbrev pub Cache : Type 0
Cache = Dict Text ℕ

-- The keys of entries whose reset has passed.
unfoldable pub stale_keys : ℕ → Cache → List Text
stale_keys now [] = []
stale_keys now ((k, t) ∷ cache) =
    if leb (t * 1000) now then k ∷ stale_keys now cache else stale_keys now cache

unfoldable pub remove_all : List Text → Cache → Cache
remove_all [] cache = cache
remove_all (k ∷ ks) cache = remove_all ks (Dict.remove cache k)

-- At most 64 stale entries go once there are more than 256.
unfoldable pub clean : ℕ → Cache → Cache
clean now cache =
    if ltb 256 (length cache) then remove_all (take 64 (stale_keys now cache)) cache else cache

unfoldable pub new_reset_time : Cache → ℕ → Text → ℕ → ℕ × Cache
new_reset_time cache now limit_key period =
    let reset_time = (now + period * 1000) / 1000 in
    (reset_time, clean now (Dict.put cache limit_key reset_time))

unfoldable pub get_first_aligned_reset_time : Cache → ℕ → Text → ℕ → ℕ × Cache
get_first_aligned_reset_time cache now limit_key period = elim (Dict.get cache limit_key) [
  | none ↦ new_reset_time cache now limit_key period
  | some t ↦ if ltb now (t * 1000) then (t, cache) else new_reset_time cache now limit_key period
]

-- The end of the window by the clock, or of the next one if it is less than 5 seconds away.
unfoldable pub clock_aligned : ℕ → ℕ → ℕ
clock_aligned now period =
    let reset_time = now / (period * 1000) * period + period in
    if ltb (reset_time * 1000) (now + 5000) then reset_time + period else reset_time

unfoldable pub calculate_stable_reset_time_sliding_window :
    Cache → ℕ → ℕ → Bool → Option Text → ℕ × Cache
calculate_stable_reset_time_sliding_window cache now period true limit_key =
    (clock_aligned now period, cache)
calculate_stable_reset_time_sliding_window cache now period false none =
    ((now + period * 1000) / 1000, cache)
calculate_stable_reset_time_sliding_window cache now period false (some limit_key) =
    if is_empty limit_key
    then ((now + period * 1000) / 1000, cache)
    else get_first_aligned_reset_time cache now limit_key period

-- What `backend.get_reset_time` does: a time or None, or an AttributeError or NotImplementedError.
pub data BackendReset : Type 0 where
  answered : Option ℕ → BackendReset
  unsupported : BackendReset

pub data BackendAlgorithm : Type 0 where
  sliding_window fixed_window other_algorithm : BackendAlgorithm

-- A backend as `_get_reset_time` sees it; `get_stable_reset_time` is `none` where it is missing.
pub record ResetBackend : Type 0 where
  pub get_reset_time : BackendReset
  pub get_stable_reset_time : Option ℕ
  pub algorithm : BackendAlgorithm

-- `not reset_time`
unfoldable pub is_falsy : Option ℕ → Bool
is_falsy none = true
is_falsy (some zero) = true
is_falsy (some (suc n)) = false

unfoldable pub by_algorithm :
    BackendAlgorithm → Option ℕ → Cache → ℕ → Text → ℕ → Bool → Option ℕ × Cache
by_algorithm sliding_window reset_time cache now limit_key period align =
    let (t, cache') =
      calculate_stable_reset_time_sliding_window cache now period align (some limit_key) in
    (some t, cache')
by_algorithm fixed_window reset_time cache now limit_key period align =
    let (t, cache') =
      calculate_stable_reset_time_sliding_window cache now period align (some limit_key) in
    if is_falsy reset_time then (some t, cache') else (reset_time, cache)
by_algorithm other_algorithm reset_time cache now limit_key period align = (reset_time, cache)

unfoldable pub fallback_reset_time : Cache → ℕ → Text → ℕ → Bool → Option ℕ × Cache
fallback_reset_time cache now limit_key period true = (some (clock_aligned now period), cache)
fallback_reset_time cache now limit_key period false =
    let (t, cache') = get_first_aligned_reset_time cache now limit_key period in (some t, cache')

unfoldable pub get_reset_time : ResetBackend → Cache → ℕ → Text → ℕ → Bool → Option ℕ × Cache
get_reset_time b cache now limit_key period align = elim b.get_reset_time [
  | unsupported ↦ fallback_reset_time cache now limit_key period align
  | answered reset_time ↦ (elim b.get_stable_reset_time [
    | some t ↦ (some t, cache)
    | none ↦ by_algorithm b.algorithm reset_time cache now limit_key period align
  ])
]
