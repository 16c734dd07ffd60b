-- ===== src/Adaptive/Limiter/Runs.antt =====
-- Runs of an adaptive limiter (django_smart_ratelimit/adaptive.py): what any requests for its limit
-- are told.
use django_smart_ratelimit.Prelude.{
  ℕ, ◌+◌, ◌/◌, ◌≤◌, ◌<◌, ◌≡◌, refl, ◌∙◌, inl, inr, none, some, List, [], ◌∷◌, max, Text, text_key,
  ltb, length, Bool-cases, arith,
}
use django_smart_ratelimit.Prelude.Dict
use django_smart_ratelimit.Prelude.Dict.{Dict}
use django_smart_ratelimit.Adaptive.Quotient.{Quotient}
use django_smart_ratelimit.Adaptive.Limiter.{
  Indicator, AdaptiveRateLimiter, history_max_size, new_limiter, update_if_needed,
  get_effective_limit,
}
use django_smart_ratelimit.Adaptive.Limiter.Bounds.{AreThresholds}
use django_smart_ratelimit.Adaptive.Limiter.Updates.{IsLoad, AllLoads, IsSound, update-IsSound}

module _ {ℓ} {World : Type ℓ} where
  -- What callers do with a limiter, in any order: ask for its limit, with the state of the system
  -- and the time.
  unfoldable pub ask_all : AdaptiveRateLimiter World → List (World × ℕ) → AdaptiveRateLimiter World
  ask_all limiter [] = limiter
  ask_all limiter ((world, now) ∷ asks) = ask_all (get_effective_limit limiter world now).0 asks

  -- What the requests for a limit leave as it is.
  abbrev SameSetup : AdaptiveRateLimiter World → AdaptiveRateLimiter World → Type ℓ
  SameSetup a b =
      (a.indicators ≡ b.indicators) × (a.min_limit ≡ b.min_limit) × (a.max_limit ≡ b.max_limit)

  update-SameSetup :
      (limiter : AdaptiveRateLimiter World) (world : World) (now : ℕ)
      → SameSetup (update_if_needed limiter world now) limiter
  unfolding update_if_needed
  update-SameSetup limiter world now =
      elim (Bool-cases (ltb now (limiter.last_update + limiter.update_interval))) [
        | inl early ↦ rw early (refl, refl, refl)
        | inr due ↦ rw due (refl, refl, refl)
      ]

  ask_all-SameSetup :
      (limiter : AdaptiveRateLimiter World) (asks : List (World × ℕ))
      → SameSetup (ask_all limiter asks) limiter
  unfolding ask_all get_effective_limit
  ask_all-SameSetup limiter [] = (refl, refl, refl)
  ask_all-SameSetup limiter ((world, now) ∷ asks) =
      let (i, a, b) = ask_all-SameSetup (update_if_needed limiter world now) asks in
      let (i', a', b') = update-SameSetup limiter world now in (i ∙ i', a ∙ a', b ∙ b')

  ask_all-IsSound :
      (limiter : AdaptiveRateLimiter World) (asks : List (World × ℕ))
      → IsSound limiter
      → ((world : World) → AllLoads world limiter.indicators)
      → IsSound (ask_all limiter asks)
  unfolding ask_all get_effective_limit
  ask_all-IsSound limiter [] v loads = v
  ask_all-IsSound limiter ((world, now) ∷ asks) v loads =
      ask_all-IsSound (update_if_needed limiter world now) asks
        (update-IsSound limiter world now v (loads world))
        λ w. rw ((update-SameSetup limiter world now).0) (loads w)

  -- A new limiter with a limit of at least 1 and its other limits left out, whose thresholds,
  -- smoothing factor and weights are what they are meant to be, starts sound.
  new_limiter-IsSound :
      (base_limit : ℕ) (indicators : List (Indicator World)) (weights : Dict Text Quotient)
      (low high smoothing : Quotient) (interval : ℕ)
      → 1 ≤ base_limit
      → AreThresholds low high
      → IsLoad smoothing
      → ((name : Text) (w : Quotient) → Dict.get weights name ≡ some w → 0 < w.den)
      → IsSound (new_limiter base_limit none none indicators weights low high smoothing interval)
  unfolding new_limiter
  new_limiter-IsSound base_limit indicators weights low high smoothing interval h t f ws =
      let least : max 1 (base_limit / 10) ≤ base_limit = omega arith in
      record {
        ordered = least;
        thresholds = t;
        smoothing = f;
        weight_den = ws;
        load = record { positive_den = omega arith; le_one = omega arith };
        least = least;
        greatest = omega arith;
        history = omega arith;
      }

-- A limiter with a base limit of at least 1 and its other limits left out, whose low threshold is
-- below the high one, whose smoothing factor lies between 0 and 1 and whose thresholds and weights
-- are fractions (of positive denominators), and whose indicators report loads between 0 and 1 or
-- fail, only ever announces limits from a tenth of the base limit
-- (rounded down, and at least 1) to the base limit, whatever states of the system and times it is
-- asked at; its load stays between 0 and 1 and its history within 1000 entries.
pub always_in_range {ℓ} :
    {World : Type ℓ} (base_limit : ℕ) (indicators : List (Indicator World))
    (weights : Dict Text Quotient) (low high smoothing : Quotient) (interval : ℕ)
    (asks : List (World × ℕ)) (world : World) (now : ℕ)
    → 1 ≤ base_limit
    → AreThresholds low high
    → IsLoad smoothing
    → ((name : Text) (w : Quotient) → Dict.get weights name ≡ some w → 0 < w.den)
    → ((world : World) → AllLoads world indicators)
    → let limiter =
        ask_all
          (new_limiter base_limit none none indicators weights low high smoothing interval)
          asks in
      let (limiter', limit) = get_effective_limit limiter world now in
      (max 1 (base_limit / 10) ≤ limit)
      × (limit ≤ base_limit)
      × IsLoad limiter'.current_load
      × (length limiter'.load_history ≤ history_max_size)
always_in_range base_limit indicators weights low high smoothing interval asks world now h t f ws
      loads =
    let new = new_limiter base_limit none none indicators weights low high smoothing interval in
    let start =
      new_limiter-IsSound base_limit indicators weights low high smoothing interval h t f ws in
    let all : (w : _) → AllLoads w new.indicators = unfold new_limiter in loads in
    let limiter = ask_all new asks in
    let (i, a, b) = ask_all-SameSetup new asks in
    let (_, a', b') = update-SameSetup limiter world now in
    let v =
      update-IsSound limiter world now (ask_all-IsSound new asks start all) (rw i (all world)) in
    let least : new.min_limit ≡ max 1 (base_limit / 10) = unfold new_limiter in refl in
    let greatest : new.max_limit ≡ base_limit = unfold new_limiter in refl in
    unfold get_effective_limit in
    (
      omega (arith, v.least, a, a', least),
      omega (arith, v.greatest, b, b', greatest),
      v.load,
      v.history,
    )
