-- ===== src/Adaptive/Limiter/Updates.antt =====
-- The state of an adaptive limiter (django_smart_ratelimit/adaptive.py) through its updates.
use native.Mathlib.Nat.{mul-pos}
use django_smart_ratelimit.Prelude.{
  ℕ, ◌+◌, ◌≤◌, ◌<◌, ◌≡◌, inl, inr, some, List, [], ◌∷◌, ◌++◌, Text, text_key, ltb, nat_beq, get_or,
  length, length-append, length-drop, Bool-cases, Option-cases, arith,
}
use django_smart_ratelimit.Prelude.Dict
use django_smart_ratelimit.Prelude.Dict.{Dict}
use django_smart_ratelimit.Adaptive.Quotient.{
  Quotient, zero_q, one_q, ◌≤q◌, add_q, mul_q, sub_q, div_q, ≤q_trans, add_q-mono, mul_q-le,
  mul_q-le_left, add_q-sub_q, add_q-den, mul_q-den, sub_q-den,
}
use django_smart_ratelimit.Adaptive.Limiter.{
  Indicator, AdaptiveRateLimiter, history_max_size, smoothed, append_history, weigh,
  calculate_combined_load, update_if_needed,
}
use django_smart_ratelimit.Adaptive.Limiter.Bounds.{AreThresholds, limit_bounds}

-- A fraction from 0 to 1.
pub record IsLoad (q : Quotient) : Type 0 where
  pub positive_den : 0 < q.den
  pub le_one : q ≤q one_q

weight_of :
    (weights : Dict Text Quotient) (name : Text)
    → ((name : Text) (w : Quotient) → Dict.get weights name ≡ some w → 0 < w.den)
    → 0 < (get_or (Dict.get weights name) one_q).den
weight_of weights name ws = elim (Option-cases (Dict.get weights name)) [
  | inl unset ↦ rw unset (omega arith)
  | inr (w, found) ↦ rw found (ws name w found)
]

module _ {ℓ} {World : Type ℓ} where
  -- The loads of all indicators that answer lie between 0 and 1.
  abbrev pub AllLoads : World → List (Indicator World) → Type 0
  AllLoads world [] = Unit {0}
  AllLoads world (i ∷ is) =
      ((q : Quotient) → i.get_load world ≡ some q → IsLoad q) × AllLoads world is

  pub record IsSound (limiter : AdaptiveRateLimiter World) : Type ℓ where
    pub ordered : limiter.min_limit ≤ limiter.max_limit
    pub thresholds : AreThresholds limiter.load_threshold_low limiter.load_threshold_high
    pub smoothing : IsLoad limiter.smoothing_factor
    pub weight_den :
        (name : Text) (w : Quotient) → Dict.get limiter.weights name ≡ some w → 0 < w.den
    pub load : IsLoad limiter.current_load
    pub least : limiter.min_limit ≤ limiter.effective_limit
    pub greatest : limiter.effective_limit ≤ limiter.max_limit
    pub history : length limiter.load_history ≤ history_max_size

  -- The sums of `weigh`: the weighted loads are at most the weights.
  weigh-le :
      (world : World) (weights : Dict Text Quotient) (is : List (Indicator World))
      (wl tw : Quotient)
      → ((name : Text) (w : Quotient) → Dict.get weights name ≡ some w → 0 < w.den)
      → AllLoads world is
      → 0 < wl.den
      → 0 < tw.den
      → wl ≤q tw
      → let (wl', tw') = weigh world weights is wl tw in
        (0 < wl'.den) × (0 < tw'.den) × (wl' ≤q tw')
  unfolding weigh
  weigh-le world weights [] wl tw ws loads d d' h = (d, d', h)
  weigh-le world weights (i ∷ is) wl tw ws loads d d' h = elim (Option-cases (i.get_load world)) [
    | inl failed ↦ rw (failed, weigh) (weigh-le world weights is wl tw ws loads.1 d d' h)
    | inr (q, answer) ↦
        let w = get_or (Dict.get weights i.name) one_q in
        let wd : 0 < w.den = weight_of weights i.name ws in
        let load = loads.0 q answer in
        let product = mul_q-den q w load.positive_den wd in
        rw (answer, weigh)
          (weigh-le world weights is (add_q wl (mul_q q w)) (add_q tw w) ws loads.1
            (add_q-den wl (mul_q q w) d product) (add_q-den tw w d' wd)
            (add_q-mono wl tw (mul_q q w) w h (mul_q-le q w load.le_one)))
  ]

  -- The combined load of indicators between 0 and 1 is between 0 and 1.
  combined-IsLoad :
      (limiter : AdaptiveRateLimiter World) (world : World)
      → IsSound limiter
      → AllLoads world limiter.indicators
      → IsLoad (calculate_combined_load limiter world)
  unfolding calculate_combined_load div_q
  combined-IsLoad limiter world v loads =
      let (d, d', h) =
        weigh-le world limiter.weights limiter.indicators zero_q zero_q v.weight_den loads
          (omega arith) (omega arith) (omega arith) in
      let (wl, tw) = weigh world limiter.weights limiter.indicators zero_q zero_q in
      elim (Bool-cases (nat_beq tw.num 0)) [
        | inl nothing ↦ rw nothing (record { positive_den = omega arith; le_one = omega arith })
        | inr something ↦
            rw something
              (record { positive_den = mul-pos d (ground arith); le_one = omega (arith, h) })
      ]

smoothed-IsLoad :
    (factor raw current : Quotient)
    → IsLoad factor
    → IsLoad raw
    → IsLoad current
    → IsLoad (smoothed factor raw current)
unfolding smoothed
smoothed-IsLoad factor raw current f r c =
    let rest = sub_q one_q factor in
    let rest_den = sub_q-den one_q factor (omega arith) f.positive_den in
    record {
      positive_den =
          add_q-den (mul_q factor raw) (mul_q rest current)
            (mul_q-den factor raw f.positive_den r.positive_den)
            (mul_q-den rest current rest_den c.positive_den);
      le_one =
          ≤q_trans (add_q (mul_q factor raw) (mul_q rest current)) (add_q factor rest) one_q
            (add_q-den factor rest f.positive_den rest_den)
            (add_q-mono (mul_q factor raw) factor (mul_q rest current) rest
              (mul_q-le_left factor raw r.le_one) (mul_q-le_left rest current c.le_one))
            (add_q-sub_q factor f.le_one);
    }

length-append_history :
    (history : List (ℕ × Quotient)) (entry : ℕ × Quotient)
    → length history ≤ history_max_size
    → length (append_history history entry) ≤ history_max_size
unfolding append_history
length-append_history history entry h =
    let history' = history ++ entry ∷ [] in
    ground (arith, length-append history (entry ∷ []), length-drop 1 history')

module _ {ℓ} {World : Type ℓ} where
  -- An update keeps the state sound, if the indicators report loads between 0 and 1 or fail: the
  -- load stays between 0 and 1, the limit between the least and the greatest, and the history
  -- within 1000 entries.
  pub update-IsSound :
      (limiter : AdaptiveRateLimiter World) (world : World) (now : ℕ)
      → IsSound limiter
      → AllLoads world limiter.indicators
      → IsSound (update_if_needed limiter world now)
  unfolding update_if_needed
  update-IsSound limiter world now v loads =
      let raw = combined-IsLoad limiter world v loads in
      let load =
        smoothed limiter.smoothing_factor (calculate_combined_load limiter world)
          limiter.current_load in
      let sound =
        smoothed-IsLoad limiter.smoothing_factor (calculate_combined_load limiter world)
          limiter.current_load v.smoothing raw v.load in
      let (above, below) =
        limit_bounds limiter.min_limit limiter.max_limit limiter.load_threshold_low
          limiter.load_threshold_high v.ordered v.thresholds load sound.positive_den in
      elim (Bool-cases (ltb now (limiter.last_update + limiter.update_interval))) [
        | inl early ↦ rw early v
        | inr due ↦ rw due (record {
          ordered = v.ordered;
          thresholds = v.thresholds;
          smoothing = v.smoothing;
          weight_den = v.weight_den;
          load = sound;
          least = above;
          greatest = below;
          history = length-append_history limiter.load_history (now, load) v.history;
        })
      ]
