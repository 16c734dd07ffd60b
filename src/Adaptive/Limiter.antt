-- ===== src/Adaptive/Limiter.antt =====
-- django_smart_ratelimit/adaptive.py: `AdaptiveRateLimiter` and the registry of limiters. A load, a
-- threshold, the smoothing factor (from 0 to 1) and a weight are fractions. An indicator is here
-- its name and what its `get_load` answers when it is asked: `none` is an exception.
pub mod Bounds
pub mod Updates
pub mod Runs
use django_smart_ratelimit.Prelude.{
  ℕ, zero, suc, ◌+◌, ◌-◌, ◌*◌, ◌/◌, Bool, true, false, Option, none, some, List, [], ◌∷◌, ◌++◌, map,
  max, Text, text_key, ◌==◌, ltb, leb, nat_beq, get_or, length, filter, drop, if◌then◌else◌,
}
use django_smart_ratelimit.Prelude.Dict
use django_smart_ratelimit.Prelude.Dict.{Dict}
use django_smart_ratelimit.Adaptive.Quotient.{
  Quotient, quotient, zero_q, one_q, leb_q, add_q, mul_q, sub_q, div_q,
}

pub record Indicator {ℓ} (World : Type ℓ) : Type ℓ where
  pub name : Text
  pub get_load : World → Option Quotient

module _ {ℓ} (World : Type ℓ) where
  pub record AdaptiveRateLimiter : Type ℓ where
    pub base_limit : ℕ
    pub min_limit : ℕ
    pub max_limit : ℕ
    pub load_threshold_low : Quotient
    pub load_threshold_high : Quotient
    pub smoothing_factor : Quotient
    pub update_interval : ℕ
    pub indicators : List (Indicator World)
    pub weights : Dict Text Quotient
    pub current_load : Quotient
    pub effective_limit : ℕ
    pub last_update : ℕ
    pub load_history : List (ℕ × Quotient)

abbrev pub history_max_size : ℕ
history_max_size = 1000

-- The part of `_calculate_effective_limit` between the thresholds,
-- `int(max_limit - load_position * limit_range)`.
unfoldable pub interpolated : ℕ → ℕ → Quotient → ℕ
interpolated min_limit max_limit position =
    if leb min_limit max_limit
    then (max_limit * position.den - position.num * (max_limit - min_limit)) / position.den
    else (max_limit * position.den + position.num * (min_limit - max_limit)) / position.den

unfoldable pub calculate_effective_limit : ℕ → ℕ → Quotient → Quotient → Quotient → ℕ
calculate_effective_limit min_limit max_limit low high load =
    if leb_q load low
    then max_limit
    else if leb_q high load
    then min_limit
    else interpolated min_limit max_limit (div_q (sub_q load low) (sub_q high low))

-- `factor * raw_load + (1 - factor) * current_load`
unfoldable pub smoothed : Quotient → Quotient → Quotient → Quotient
smoothed factor raw current = add_q (mul_q factor raw) (mul_q (sub_q one_q factor) current)

-- The history with an entry more, of which the oldest goes if there are too many.
unfoldable pub append_history : List (ℕ × Quotient) → ℕ × Quotient → List (ℕ × Quotient)
append_history history entry =
    let history' = history ++ entry ∷ [] in
    if ltb history_max_size (length history') then drop 1 history' else history'

module _ {ℓ} {World : Type ℓ} where
  -- `__init__`, with its list of indicators given.
  unfoldable pub new_limiter :
      ℕ
      → Option ℕ
      → Option ℕ
      → List (Indicator World)
      → Dict Text Quotient
      → Quotient
      → Quotient
      → Quotient
      → ℕ
      → AdaptiveRateLimiter World
  new_limiter base_limit min_limit max_limit indicators weights low high smoothing interval =
      record {
        base_limit = base_limit;
        min_limit = get_or min_limit (max 1 (base_limit / 10));
        max_limit = get_or max_limit base_limit;
        load_threshold_low = low;
        load_threshold_high = high;
        smoothing_factor = smoothing;
        update_interval = interval;
        indicators = indicators;
        weights = weights;
        current_load = zero_q;
        effective_limit = base_limit;
        last_update = 0;
        load_history = [];
      }

  unfoldable pub add_indicator :
      AdaptiveRateLimiter World → Indicator World → Quotient → AdaptiveRateLimiter World
  add_indicator limiter indicator weight = record limiter {
    indicators = limiter.indicators ++ indicator ∷ [];
    weights = Dict.put limiter.weights indicator.name weight;
  }

  -- The first indicator of a name, taken out.
  unfoldable pub without_first : Text → List (Indicator World) → Option (List (Indicator World))
  without_first name [] = none
  without_first name (i ∷ is) =
      let rest = without_first name is in
      if i.name == name then some is else (elim rest [ none ↦ none | some js ↦ some (i ∷ js) ])

  unfoldable pub remove_indicator :
      AdaptiveRateLimiter World → Text → AdaptiveRateLimiter World × Bool
  unfolding without_first
  remove_indicator limiter name = elim (without_first name limiter.indicators) [
    | none ↦ (limiter, false)
    | some is ↦
        (record limiter { indicators = is; weights = Dict.remove limiter.weights name }, true)
  ]

  -- The sums of `load * weight` and of `weight` over the indicators that answer.
  unfoldable pub weigh :
      World
      → Dict Text Quotient
      → List (Indicator World)
      → Quotient
      → Quotient
      → Quotient × Quotient
  weigh world weights [] weighted_load total_weight = (weighted_load, total_weight)
  weigh world weights (i ∷ is) weighted_load total_weight = elim (i.get_load world) [
    | none ↦ weigh world weights is weighted_load total_weight
    | some load ↦
        let weight = get_or (Dict.get weights i.name) one_q in
        weigh world weights is (add_q weighted_load (mul_q load weight)) (add_q total_weight weight)
  ]

  unfoldable pub calculate_combined_load : AdaptiveRateLimiter World → World → Quotient
  unfolding weigh div_q
  calculate_combined_load limiter world =
      let (weighted_load, total_weight) =
        weigh world limiter.weights limiter.indicators zero_q zero_q in
      if nat_beq total_weight.num 0 then zero_q else div_q weighted_load total_weight

  unfoldable pub update_if_needed :
      AdaptiveRateLimiter World → World → ℕ → AdaptiveRateLimiter World
  update_if_needed limiter world now =
      if ltb now (limiter.last_update + limiter.update_interval)
      then limiter
      else (let load =
            smoothed limiter.smoothing_factor (calculate_combined_load limiter world)
              limiter.current_load in
          record limiter {
            current_load = load;
            effective_limit =
                calculate_effective_limit limiter.min_limit limiter.max_limit
                  limiter.load_threshold_low limiter.load_threshold_high load;
            last_update = now;
            load_history = append_history limiter.load_history (now, load);
          })

  unfoldable pub get_effective_limit :
      AdaptiveRateLimiter World → World → ℕ → AdaptiveRateLimiter World × ℕ
  get_effective_limit limiter world now =
      let limiter' = update_if_needed limiter world now in (limiter', limiter'.effective_limit)

  unfoldable pub get_current_load :
      AdaptiveRateLimiter World → World → ℕ → AdaptiveRateLimiter World × Quotient
  get_current_load limiter world now =
      let limiter' = update_if_needed limiter world now in (limiter', limiter'.current_load)

  unfoldable pub get_load_history : AdaptiveRateLimiter World → Option ℕ → List (ℕ × Quotient)
  get_load_history limiter none = limiter.load_history
  get_load_history limiter (some since) =
      filter (λ (entry : ℕ × Quotient). ltb since entry.0) limiter.load_history

  -- The registry of limiters by name.
  unfoldable pub get_adaptive_limiter :
      Dict Text (AdaptiveRateLimiter World) → Text → Option (AdaptiveRateLimiter World)
  get_adaptive_limiter limiters name = Dict.get limiters name

  unfoldable pub register_adaptive_limiter :
      Dict Text (AdaptiveRateLimiter World)
      → Text
      → AdaptiveRateLimiter World
      → Dict Text (AdaptiveRateLimiter World)
  register_adaptive_limiter limiters name limiter = Dict.put limiters name limiter

  unfoldable pub unregister_adaptive_limiter :
      Dict Text (AdaptiveRateLimiter World) → Text → Dict Text (AdaptiveRateLimiter World) × Bool
  unregister_adaptive_limiter limiters name =
      (Dict.remove limiters name, Dict.contains limiters name)
