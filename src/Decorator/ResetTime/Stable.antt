-- ===== src/Decorator/ResetTime/Stable.antt =====
-- The announced times of reset of django_smart_ratelimit/decorator.py lie ahead, and stay as long
-- as they do.
use native.Mathlib.Nat.{div-mul-le_self, lt-div-mul-add}
use django_smart_ratelimit.Prelude.{
  ℕ, zero, suc, ◌+◌, ◌*◌, ◌/◌, ◌≤◌, ◌<◌, ◌≡◌, refl, ap, ◌∙◌, inl, inr, false, none, some, List, [],
  ◌∷◌, Text, text_key, text_beq_iff, ltb, leb, length, take, lt→leb, Bool-cases, Option-cases,
  arith, ◌==◌,
}
use django_smart_ratelimit.Prelude.Dict
use django_smart_ratelimit.Decorator.ResetTime.{
  Cache, stale_keys, remove_all, clean, new_reset_time, get_first_aligned_reset_time, clock_aligned,
}

-- By the clock, the announced reset is later than now, and by at most a period and 5 seconds.
pub clock_aligned_ahead :
    (now period : ℕ)
    → 1 ≤ period
    → (now < clock_aligned now period * 1000)
      × (clock_aligned now period * 1000 ≤ now + 5000 + period * 1000)
unfolding clock_aligned
clock_aligned_ahead now period h =
    let k = period * 1000 in
    let q = now / k in
    let under : q * k ≤ now = div-mul-le_self now k in
    let over : now < q * k + k = lt-div-mul-add (omega arith) in
    let scaled : (q * period + period) * 1000 ≡ q * k + k = omega arith in
    ground (arith, scaled, under, over)

-- Every key occurs once.
abbrev pub Distinct : Cache → Type 0
Distinct [] = Unit {0}
Distinct ((k, t) ∷ cache) = (Dict.get cache k ≡ none) × Distinct cache

-- A key is none of some keys.
abbrev Apart : Text → List Text → Type 0
Apart key [] = Unit {0}
Apart key (k ∷ ks) = ((k == key) ≡ false) × Apart key ks

Apart-take : (key : Text) (n : ℕ) (ks : List Text) → Apart key ks → Apart key (take n ks)
Apart-take key zero ks h = tt
Apart-take key (suc n) [] h = tt
Apart-take key (suc n) (k ∷ ks) h = (h.0, Apart-take key n ks h.1)

get-remove_all :
    (ks : List Text) (cache : Cache) (key : Text)
    → Apart key ks
    → Dict.get (remove_all ks cache) key ≡ Dict.get cache key
unfolding remove_all
get-remove_all [] cache key h = refl
get-remove_all (k ∷ ks) cache key h =
    get-remove_all ks (Dict.remove cache k) key h.1
    ∙ ground (arith, Dict.get-remove cache k key, h.0)

-- A key that is not there is not stale.
absent-Apart :
    (now : ℕ) (cache : Cache) (key : Text)
    → Dict.get cache key ≡ none
    → Apart key (stale_keys now cache)
unfolding stale_keys Dict.get
absent-Apart now [] key h = tt
absent-Apart now ((k, t) ∷ cache) key h = elim (Bool-cases (k == key)) [
  | inl same ↦ absurd (ground arith)
  | inr other ↦
      let rest = absent-Apart now cache key (ground arith) in
      elim (Bool-cases (leb (t * 1000) now)) [
        | inl stale ↦ rw stale (other, rest)
        | inr fresh ↦ rw fresh rest
      ]
]

-- A key whose new reset lies ahead is not stale.
put-Apart :
    (now : ℕ) (cache : Cache) (key : Text) (t : ℕ)
    → Distinct cache
    → now < t * 1000
    → Apart key (stale_keys now (Dict.put cache key t))
unfolding stale_keys Dict.put
put-Apart now [] key t d h = rw (lt→leb (t * 1000) now h) tt
put-Apart now ((k, s) ∷ cache) key t d h = elim (Bool-cases (k == key)) [
  | inl same ↦
      let own : k ≡ key = (text_beq_iff k key).0 same in
      rw (same, lt→leb (t * 1000) now h) (absent-Apart now cache key (rw (← own) d.0))
  | inr other ↦
      let rest = put-Apart now cache key t d.1 h in
      rw other (elim (Bool-cases (leb (s * 1000) now)) [
        | inl stale ↦ rw stale (other, rest)
        | inr fresh ↦ rw fresh rest
      ])
]

get-clean :
    (now : ℕ) (cache : Cache) (key : Text) (t : ℕ)
    → Distinct cache
    → now < t * 1000
    → Dict.get (clean now (Dict.put cache key t)) key ≡ some t
unfolding clean
get-clean now cache key t d h =
    let cache' = Dict.put cache key t in
    let there : Dict.get cache' key ≡ some t = Dict.get-put_self cache key t in
    let kept =
      get-remove_all (take 64 (stale_keys now cache')) cache' key
        (Apart-take key 64 (stale_keys now cache') (put-Apart now cache key t d h)) in
    elim (Bool-cases (ltb 256 (length cache'))) [
      | inl many ↦ rw many (kept ∙ there)
      | inr few ↦ rw few there
    ]

-- What is in the cache and lies ahead is announced.
cached_answer :
    (cache : Cache) (now : ℕ) (key : Text) (period t : ℕ)
    → Dict.get cache key ≡ some t
    → now < t * 1000
    → get_first_aligned_reset_time cache now key period ≡ (t, cache)
unfolding get_first_aligned_reset_time
cached_answer cache now key period t found ahead = ground (arith, found)

announced_is_cached :
    (cache : Cache) (now : ℕ) (key : Text) (period : ℕ)
    → Distinct cache
    → 1 ≤ period
    → let (t, cache') = get_first_aligned_reset_time cache now key period in
      (Dict.get cache' key ≡ some t) × (now < t * 1000)
unfolding get_first_aligned_reset_time new_reset_time
announced_is_cached cache now key period d long =
    let r = (now + period * 1000) / 1000 in
    let ahead : now < r * 1000 = omega arith in
    let fresh = get-clean now cache key r d ahead in
    elim (Option-cases (Dict.get cache key)) [
      | inl absent ↦ ground (arith, fresh, ahead)
      | inr (t, found) ↦ ground (arith, fresh, ahead, found)
    ]

-- The time that a request of a key is told lies ahead, and the next request of the key is told the
-- same and leaves the cache alone, if it comes before that time; the request before it may have
-- cleaned old entries out of the cache, in which every key occurs once.
pub first_aligned_stays :
    (cache cache' : Cache) (now later : ℕ) (key : Text) (period period' t : ℕ)
    → Distinct cache
    → 1 ≤ period
    → get_first_aligned_reset_time cache now key period ≡ (t, cache')
    → later < t * 1000
    → (now < t * 1000) × (get_first_aligned_reset_time cache' later key period' ≡ (t, cache'))
first_aligned_stays cache cache' now later key period period' t d long first soon =
    let (cached, ahead) = announced_is_cached cache now key period d long in
    let time : (get_first_aligned_reset_time cache now key period).0 ≡ t =
      ap (λ (r : ℕ × Cache). r.0) first in
    let same : (get_first_aligned_reset_time cache now key period).1 ≡ cache' =
      ap (λ (r : ℕ × Cache). r.1) first in
    let there : Dict.get cache' key ≡ some t = ground (arith, cached, time, same) in
    (ground (arith, ahead, time), cached_answer cache' later key period' t there soon)
